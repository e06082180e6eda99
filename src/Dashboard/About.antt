-- ===== src/Dashboard/About.antt =====
-- agent/internal/api/web/about.js: the dialogs about the node and the acknowledgments. The reply to
-- the request is a value; `menu` is the profile menu, which a click here closes. What `renderAbout` draws
-- beside its list of details and the featured names is left out.
pub mod Laws
mod Tests
use strom.Prelude.{
  ℕ, ◌+◌, ◌-◌, ◌/◌, ◌%◌, Text, codes, decimal, is_infix, Bool, true, false, not, ◌||◌, ◌&&◌, Option,
  none, some, List, [], ◌∷◌, ◌++◌, map, ltb, ◌==◌, length, keep, if◌then◌else◌,
}
use strom.Dashboard.Menu.{Menu, close_menus}
use strom.Dashboard.Settings.{trim}
use strom.Dashboard.Status.{to_lower_case}
use strom.Dashboard.Store.{Reply, ok, failed}

-- `Math.max(0, Number(seconds) || 0)`: no number is `none`.
abbrev or_zero : Option ℕ → ℕ
or_zero none = 0
or_zero (some total) = total

unfoldable pub format_duration : Option ℕ → Text
unfolding codes decimal
format_duration seconds =
    let total = or_zero seconds in
    let days = total / 86400 in
    let hours = total % 86400 / 3600 in
    let minutes = total % 3600 / 60 in
    if ltb 0 days
    then decimal days ++ (codes "d " ++ (decimal hours ++ codes "h"))
    else if ltb 0 hours
    then decimal hours ++ (codes "h " ++ (decimal minutes ++ codes "m"))
    else decimal minutes ++ codes "m"

pub record Dependency : Type 0 where
  pub name : Text
  pub version : Text
  pub source : Text
  pub architecture : Text

pub record AboutData : Type 0 where
  pub version : Text
  pub serial : Text
  pub hostname : Text
  pub adopted : Bool
  pub operating_system : Text
  pub kernel : Text
  pub architecture : Text
  pub go_version : Text
  pub uptime_seconds : Option ℕ
  pub featured_dependencies : List Dependency
  pub go_modules : List Dependency
  pub debian_packages : List Dependency

pub record Row : Type 0 where
  pub label : Text
  pub value : Text

abbrev or_unavailable : Text → Text
or_unavailable [] = codes "Unavailable"
or_unavailable (c ∷ t) = c ∷ t

abbrev row : Text → Text → Row
row label value = record { label = label; value = or_unavailable value }

-- The details of the node in `renderAbout`.
unfoldable pub node_details : AboutData → List Row
unfolding format_duration codes
node_details d =
    row (codes "Strom version") d.version
    ∷ row (codes "Node serial") d.serial
    ∷ row (codes "Hostname") d.hostname
    ∷ row (codes "Deployment")
        (if d.adopted then codes "Managed by a Strom controller" else codes "Standalone node")
    ∷ row (codes "Operating system") d.operating_system
    ∷ row (codes "Kernel") d.kernel
    ∷ row (codes "Architecture") d.architecture
    ∷ row (codes "Go runtime") d.go_version
    ∷ row (codes "Agent uptime") (format_duration d.uptime_seconds)
    ∷ []

pub data Category : Type 0 where
  all go debian : Category

abbrev is_go : Category → Bool
is_go go = true
is_go _ = false

abbrev is_debian : Category → Bool
is_debian debian = true
is_debian _ = false

-- A group of the acknowledgments, with its heading's title and the records below it.
pub record Group : Type 0 where
  pub title : Text
  pub records : List Dependency

abbrev is_blank : Text → Bool
is_blank [] = true
is_blank (c ∷ t) = false

unfoldable pub matches : Text → Dependency → Bool
unfolding to_lower_case is_infix
matches query value =
    is_blank query
    || (is_infix query (to_lower_case value.name) || is_infix query (to_lower_case value.version))

abbrev pub group_of : Text → List Dependency → List Group
group_of title [] = []
group_of title (record_ ∷ records) = record { title = title; records = record_ ∷ records } ∷ []

unfoldable pub append_group : Bool → Text → Text → List Dependency → List Group
unfolding matches
append_group wanted query title records =
    if wanted then group_of title (keep (matches query) records) else []

-- The groups of `renderAcknowledgements`; none at all is its text that no record matches.
unfoldable pub render_groups : Text → Category → AboutData → List Group
unfolding append_group trim to_lower_case codes
render_groups search category d =
    let query = to_lower_case (trim search) in
    append_group (not (is_debian category)) query (codes "Go modules") d.go_modules
    ++ append_group (not (is_go category)) query (codes "Installed Debian packages")
        d.debian_packages

pub data Content : Type 0 where
  nothing : Content
  error : Text → Content
  details : List Row → Content

-- `fetches` counts the requests for `/api/about`, and `waiting` those that have no reply yet.
pub record AboutState : Type 0 where
  pub data_ : Option AboutData
  pub about_open : Bool
  pub acknowledgements_open : Bool
  pub content : Content
  pub groups : List Group
  pub search : Text
  pub category : Category
  pub menu : Menu
  pub fetches : ℕ
  pub waiting : ℕ

abbrev with_data : Option AboutData → AboutState → AboutState
with_data none s = record s {
  content = error (codes "Loading node information…");
  fetches = s.fetches + 1;
  waiting = s.waiting + 1;
}
with_data (some d) s = record s { content = details (node_details d) }

-- A click on a button that opens the dialog, up to the `await` of the request if there is one.
unfoldable pub open_about : AboutState → AboutState
unfolding node_details close_menus
open_about s = with_data s.data_ (record s { menu = close_menus s.menu; about_open = true })

abbrev one_less : ℕ → ℕ
one_less n = n - 1

unfoldable pub about_end : Reply AboutData → AboutState → AboutState
unfolding node_details
about_end (ok d) s = record s {
  data_ = some d;
  content = details (node_details d);
  waiting = one_less s.waiting;
}
about_end (failed text) s = record s { content = error text; waiting = one_less s.waiting }

abbrev refill : Option AboutData → AboutState → AboutState
refill none s = s
refill (some d) s = record s { groups = render_groups s.search s.category d }

unfoldable pub render_acknowledgements : AboutState → AboutState
unfolding render_groups
render_acknowledgements s = refill s.data_ s

-- The button below the featured names, the two inputs, and the ways back.
unfoldable pub view_all : AboutState → AboutState
unfolding render_acknowledgements
view_all s = render_acknowledgements (record s { about_open = false; acknowledgements_open = true })

unfoldable pub change_search : Text → AboutState → AboutState
unfolding render_acknowledgements
change_search search s = render_acknowledgements (record s { search = search })

unfoldable pub change_filter : Category → AboutState → AboutState
unfolding render_acknowledgements
change_filter category s = render_acknowledgements (record s { category = category })

unfoldable pub close_about : AboutState → AboutState
close_about s = record s { about_open = false }

unfoldable pub close_acknowledgements : AboutState → AboutState
close_acknowledgements s = record s { acknowledgements_open = false }

unfoldable pub back_to_about : AboutState → AboutState
back_to_about s = record s { acknowledgements_open = false; about_open = true }
