-- ===== src/Dashboard/Stream.antt =====
-- The health stream of agent/internal/api/web/app.js. `JSON.parse` is the browser's: an event comes
-- with what it gives, or with `none` where it throws. `H` is the type of a node's health, `M` of a
-- sample of its history.
pub mod Laws
use strom.Prelude.{Text, codes, Bool, true, false, Option, none, some, List, []}
use strom.Dashboard.Store.{Ups, Store}
use strom.Dashboard.Live.{update_live_ups_data}

pub record Health (H R : Type 0) : Type 0 where
  pub node : H
  pub upses : Option (List (Ups R))

-- `status_text` is there if the page has the element; `rendered` is what `renderHealth` was called
-- with.
pub record Stream (H M R : Type 0) : Type 0 where
  pub store : Store R
  pub health : Option (Health H R)
  pub metric_history : List M
  pub connected : Bool
  pub status_text : Option Text
  pub rendered : Option (Health H R)

pub data StreamEvent (H M R : Type 0) : Type 0 where
  opened : StreamEvent H M R
  history : Option (Option (List M)) → StreamEvent H M R
  health_update : Option (Health H R) → StreamEvent H M R
  stream_error : StreamEvent H M R

abbrev or_empty {ℓ} : {A : Type ℓ} → Option (List A) → List A
or_empty none = []
or_empty (some xs) = xs

abbrev stream_text : Bool → Text
stream_text true = codes "Live"
stream_text false = codes "Reconnecting…"

abbrev put_text : Bool → Option Text → Option Text
put_text connected none = none
put_text connected (some text) = some (stream_text connected)

module _ {H M R : Type 0} where
  unfoldable pub set_health_stream_status : Bool → Stream H M R → Stream H M R
  set_health_stream_status connected s = record s {
    connected = connected;
    status_text = put_text connected s.status_text;
  }

  abbrev render_health : Stream H M R → Stream H M R
  render_health s = record s { rendered = s.health }

  abbrev update_upses : Health H R → Stream H M R → Stream H M R
  update_upses h s = record s { store = update_live_ups_data (or_empty h.upses) s.store }

  -- The listeners of `connectHealthStream`.
  unfoldable pub handle_event : StreamEvent H M R → Stream H M R → Stream H M R
  unfolding set_health_stream_status update_live_ups_data
  handle_event opened s = set_health_stream_status true s
  handle_event (history none) s = s
  handle_event (history (some samples)) s =
      render_health (record s { metric_history = or_empty samples })
  handle_event (health_update none) s = s
  handle_event (health_update (some h)) s =
      update_upses h (render_health (set_health_stream_status true (record s { health = some h })))
  handle_event stream_error s = set_health_stream_status false s
