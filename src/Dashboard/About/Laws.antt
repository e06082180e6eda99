-- ===== src/Dashboard/About/Laws.antt =====
-- What the acknowledgments show, and how often the node is asked.
use strom.Prelude.{
  ℕ, ◌<◌, ◌≡◌, refl, ap, ◌∙◌, sym, Text, codes, Bool, true, false, Option, none, some, List, [],
  ◌∷◌, ◌++◌, append-nil, append_assoc, keep, arith,
}
use strom.Dashboard.Settings.{trim}
use strom.Dashboard.Status.{to_lower_case}
use strom.Dashboard.Store.{Reply, ok, failed}
use strom.Dashboard.About.{
  Dependency, AboutData, AboutState, Category, all, go, debian, Group, group_of, matches,
  append_group, render_groups, open_about, about_end, view_all, change_search, change_filter,
  close_about, close_acknowledgements, back_to_about, render_acknowledgements,
}

-- The records of all groups.
abbrev pub shown : List Group → List Dependency
shown [] = []
shown (g ∷ groups) = g.records ++ shown groups

-- The records of a category: the modules first.
abbrev pub chosen : Category → AboutData → List Dependency
chosen all d = d.go_modules ++ d.debian_packages
chosen go d = d.go_modules
chosen debian d = d.debian_packages

abbrev pub IsFilled : List Group → Type 0
IsFilled [] = Unit
IsFilled (g ∷ groups) = (g.records ≡ [] → ⊥) × IsFilled groups

keep-append :
    (p : Dependency → Bool) (xs ys : List Dependency) → keep p (xs ++ ys) ≡ keep p xs ++ keep p ys
keep-append p [] ys = refl
keep-append p (x ∷ xs) ys = ground (arith, keep-append p xs ys)

shown-append : (gs hs : List Group) → shown (gs ++ hs) ≡ shown gs ++ shown hs
shown-append [] hs = refl
shown-append (g ∷ gs) hs =
    ap (g.records ++◌) (shown-append gs hs) ∙ sym (append_assoc g.records (shown gs) (shown hs))

shown-group_of :
    (title : Text) (records : List Dependency) → shown (group_of title records) ≡ records
shown-group_of title [] = refl
shown-group_of title (r ∷ records) = append-nil (r ∷ records)

shown-append_group :
    (query title : Text) (records : List Dependency)
    → shown (append_group true query title records) ≡ keep (matches query) records
unfolding append_group
shown-append_group query title records = shown-group_of title (keep (matches query) records)

-- The groups show exactly the records of the chosen category whose name or version has the trimmed
-- query in it, case aside, in the order of the node's lists; an empty query shows them all.
pub shown-render_groups :
    (search : Text) (category : Category) (d : AboutData)
    → shown (render_groups search category d)
      ≡ keep (matches (to_lower_case (trim search))) (chosen category d)
unfolding render_groups append_group codes
shown-render_groups search all d = rw (
  shown-append (append_group true (to_lower_case (trim search)) (codes "Go modules") d.go_modules) (
      append_group true (to_lower_case (trim search)) (codes "Installed Debian packages")
        d.debian_packages),
  shown-append_group (to_lower_case (trim search)) (codes "Go modules") d.go_modules,
  shown-append_group (to_lower_case (trim search)) (codes "Installed Debian packages")
      d.debian_packages,
  keep-append (matches (to_lower_case (trim search))) d.go_modules d.debian_packages,
)
shown-render_groups search go d =
    ap shown (
      append-nil
        (append_group true (to_lower_case (trim search)) (codes "Go modules") d.go_modules))
    ∙ shown-append_group (to_lower_case (trim search)) (codes "Go modules") d.go_modules
shown-render_groups search debian d =
    shown-append_group (to_lower_case (trim search)) (codes "Installed Debian packages")
      d.debian_packages

pub data Step (s : AboutState) : AboutState → Type 0 where
  click_open : Step s (open_about s)
  answer : (reply : Reply AboutData) → 0 < s.waiting → Step s (about_end reply s)
  click_all : Step s (view_all s)
  type_query : (search : Text) → Step s (change_search search s)
  choose : (category : Category) → Step s (change_filter category s)
  close : Step s (close_about s)
  close_list : Step s (close_acknowledgements s)
  back : Step s (back_to_about s)

pub data Session (s₀ : AboutState) : AboutState → Type 0 where
  start : Session s₀ s₀
  next : {s t : AboutState} → Session s₀ s → Step s t → Session s₀ t

abbrev is_known : Option AboutData → Bool
is_known none = false
is_known (some d) = true

-- The information is there, and the node was asked for it `fetches` times.
pub record IsLoaded (fetches : ℕ) (s : AboutState) : Type 0 where
  pub known : is_known s.data_ ≡ true
  pub counted : s.fetches ≡ fetches

open-IsLoaded :
    (n : ℕ) (s : AboutState) (o : Option AboutData)
    → s.data_ ≡ o
    → IsLoaded n s
    → IsLoaded n (open_about s)
unfolding open_about
open-IsLoaded n s none e h = ground arith
open-IsLoaded n s (some d) e h = ground arith

fill-IsLoaded :
    (n : ℕ) (s : AboutState) (o : Option AboutData)
    → s.data_ ≡ o
    → IsLoaded n s
    → IsLoaded n (render_acknowledgements s)
unfolding render_acknowledgements
fill-IsLoaded n s none e h = ground arith
fill-IsLoaded n s (some d) e h = ground arith

step-IsLoaded : (n : ℕ) (s t : AboutState) → Step s t → IsLoaded n s → IsLoaded n t
unfolding about_end view_all change_search change_filter close_about close_acknowledgements
    back_to_about
step-IsLoaded n s _ click_open h = open-IsLoaded n s s.data_ refl h
step-IsLoaded n s _ (answer (ok d) w) h = record { known = refl; counted = h.counted }
step-IsLoaded n s _ (answer (failed text) w) h = record { known = h.known; counted = h.counted }
step-IsLoaded n s _ click_all h =
    fill-IsLoaded n _ s.data_ refl (record { known = h.known; counted = h.counted })
step-IsLoaded n s _ (type_query search) h =
    fill-IsLoaded n _ s.data_ refl (record { known = h.known; counted = h.counted })
step-IsLoaded n s _ (choose category) h =
    fill-IsLoaded n _ s.data_ refl (record { known = h.known; counted = h.counted })
step-IsLoaded n s _ close h = record { known = h.known; counted = h.counted }
step-IsLoaded n s _ close_list h = record { known = h.known; counted = h.counted }
step-IsLoaded n s _ back h = record { known = h.known; counted = h.counted }

-- Once the node's information has come, it is there after any further clicks, inputs and late
-- replies, and the node is never asked for it again.
pub session-IsLoaded :
    (d : AboutData) (s t : AboutState) → Session (about_end (ok d) s) t → IsLoaded s.fetches t
unfolding about_end
session-IsLoaded d s _ start = record { known = refl; counted = refl }
session-IsLoaded d s _ (next {s = u} {t} steps step) =
    step-IsLoaded s.fetches u t step (session-IsLoaded d s u steps)
