-- ===== src/Controller/Fleet/Dialogs.antt =====
-- The dialogs of the page as a stack, and the browser's history that keeps it.
use strom.Prelude.{◌≡◌, refl, ap, ◌∙◌, subst, Text, codes, text_eq, none, some, List, [], ◌∷◌}
use strom.Controller.Fleet.{Param, get, set, Router, open_detail, open_ups, close, View, view_of}
use strom.Controller.Fleet.Params.{get-set, get-set-other}

-- The views that were opened and not closed, the latest first, over the first one.
abbrev pub top : View → List View → View
top first [] = first
top first (v ∷ views) = v

abbrev pub detail_view : Text → View
detail_view id = record { open_node_id = some id; open_ups_node_id = none; open_ups_name = none }

abbrev pub ups_view : Text → Text → View → View
ups_view id name under = record under { open_ups_node_id = some id; open_ups_name = some name }

view_of-set :
    (id name : Text) (ps : List Param)
    → view_of (set (codes "ups") name (set (codes "upsNode") id ps)) ≡ ups_view id name (view_of ps)
unfolding view_of codes text_eq
view_of-set id name ps = rw (
  get-set (codes "ups") name (set (codes "upsNode") id ps),
  get-set-other (codes "ups") (codes "node") name (set (codes "upsNode") id ps) refl,
  get-set-other (codes "ups") (codes "upsNode") name (set (codes "upsNode") id ps) refl,
  get-set (codes "upsNode") id ps,
  get-set-other (codes "upsNode") (codes "node") id ps refl,
)

view_of-detail :
    (id : Text) → view_of (record { key = codes "node"; value = id } ∷ []) ≡ detail_view id
unfolding view_of get codes text_eq
view_of-detail id = refl

module _ {H : Type 0} (router : Router H) where
  -- The dialogs are opened and closed in any order from the address at `h₀` on.
  pub data Session (h₀ : H) : H → List View → Type 0 where
    start : Session h₀ h₀ []
    opened_detail :
        {h : H} {views : List View} (id : Text)
        → Session h₀ h views
        → Session h₀ (open_detail router id h) (detail_view id ∷ views)
    opened_ups :
        {h : H} {views : List View} (id name : Text)
        → Session h₀ h views
        → Session h₀
            (open_ups router id name h)
            (ups_view id name (top (view_of (router.current h₀)) views) ∷ views)
    closed :
        {h : H} {view : View} {views : List View}
        → Session h₀ h (view ∷ views)
        → Session h₀ (close router h) views

  -- The entries from `h` down to those of `h₀` show the views.
  abbrev pub Shows : H → List Param → List (List Param) → List View → Type 0
  Shows h₀ ps past [] = (ps ≡ router.current h₀) × (past ≡ router.past h₀)
  Shows h₀ ps [] (view ∷ views) = ⊥
  Shows h₀ ps (qs ∷ past) (view ∷ views) = (view_of ps ≡ view) × Shows h₀ qs past views

  Shows-top :
      (h₀ : H) (ps : List Param) (past : List (List Param)) (views : List View)
      → Shows h₀ ps past views
      → view_of ps ≡ top (view_of (router.current h₀)) views
  Shows-top h₀ ps past [] s = ap view_of s.0
  Shows-top h₀ ps [] (view ∷ views) s = absurd s
  Shows-top h₀ ps (qs ∷ past) (view ∷ views) s = s.0

  closed-Shows :
      (h₀ h : H) (view : View) (views : List View) (past : List (List Param))
      → router.past h ≡ past
      → Shows h₀ (router.current h) (router.past h) (view ∷ views)
      → Shows h₀ (router.current (close router h)) (router.past (close router h)) views
  unfolding close
  closed-Shows h₀ h view views [] e s =
      absurd (subst (λ past. Shows h₀ (router.current h) past (view ∷ views)) e s)
  closed-Shows h₀ h view views (qs ∷ past) e s =
      rw (router.current-back qs past h e, router.past-back qs past h e)
        (subst (λ past. Shows h₀ (router.current h) past (view ∷ views)) e s).1

  session-Shows :
      (h₀ h : H) (views : List View)
      → Session h₀ h views
      → Shows h₀ (router.current h) (router.past h) views
  unfolding open_detail open_ups codes
  session-Shows h₀ h _ start = (refl, refl)
  session-Shows h₀ _ _ (opened_detail {h} {views} id s) =
      rw
        (
          router.past-set (record { key = codes "node"; value = id } ∷ []) h,
          router.current-set (record { key = codes "node"; value = id } ∷ []) h,
        )
        (view_of-detail id, session-Shows h₀ h views s)
  session-Shows h₀ _ _ (opened_ups {h} {views} id name s) =
      rw
        (
          router.past-set (set (codes "ups") name (set (codes "upsNode") id (router.current h))) h,
          router.current-set (set (codes "ups") name (set (codes "upsNode") id (router.current h)))
              h,
        )
        (
          view_of-set id name (router.current h)
              ∙ ap (ups_view id name) (
                  Shows-top h₀ (router.current h) (router.past h) views
                    (session-Shows h₀ h views s)),
          session-Shows h₀ h views s,
        )
  session-Shows h₀ _ _ (closed {h} {view} {views} s) =
      closed-Shows h₀ h view views (router.past h) refl (session-Shows h₀ h (view ∷ views) s)

  Shows-start :
      (h₀ h : H) (views : List View)
      → views ≡ []
      → Shows h₀ (router.current h) (router.past h) views
      → (router.current h ≡ router.current h₀) × (router.past h ≡ router.past h₀)
  Shows-start h₀ h [] e s = s
  Shows-start h₀ h (view ∷ views) e s = cc

  -- The history implements a stack of views. In every session that opens dialogs and closes only
  -- those it has opened, the address shows the view on top of the stack: closing a UPS that was
  -- opened over a node's dialog leaves that node's dialog, and every other dialog what was shown
  -- before it. When all are closed, the history is at the entry where the session began.
  pub session-view :
      (h₀ h : H) (views : List View)
      → Session h₀ h views
      → (view_of (router.current h) ≡ top (view_of (router.current h₀)) views)
        × (views ≡ [] → (router.current h ≡ router.current h₀) × (router.past h ≡ router.past h₀))
  session-view h₀ h views s = (
    Shows-top h₀ (router.current h) (router.past h) views (session-Shows h₀ h views s),
    λ e. Shows-start h₀ h views e (session-Shows h₀ h views s),
  )
