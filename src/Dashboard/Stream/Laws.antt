-- ===== src/Dashboard/Stream/Laws.antt =====
-- What the page shows of the stream.
use strom.Prelude.{◌≡◌, refl, none, some, List, [], ◌∷◌, arith}
use strom.Dashboard.Stream.{
  Stream, StreamEvent, opened, history, health_update, stream_error, put_text, handle_event,
}

module _ {H M R : Type 0} where
  abbrev pub handle_all : List (StreamEvent H M R) → Stream H M R → Stream H M R
  handle_all [] s = s
  handle_all (e ∷ events) s = handle_all events (handle_event e s)

  pub record IsShown (s : Stream H M R) : Type 0 where
    pub status : s.status_text ≡ put_text s.connected s.status_text
    pub health : s.rendered ≡ s.health

  handle_event-IsShown :
      (e : StreamEvent H M R) (s : Stream H M R) → IsShown s → IsShown (handle_event e s)
  unfolding handle_event
  handle_event-IsShown opened s v = ground arith
  handle_event-IsShown (history none) s v = v
  handle_event-IsShown (history (some m)) s v = record { status = v.status; health = refl }
  handle_event-IsShown (health_update none) s v = v
  handle_event-IsShown (health_update (some h)) s v = ground arith
  handle_event-IsShown stream_error s v = ground arith

  -- Whatever events the stream brings, well-formed or not, the status on the page goes on saying
  -- whether the stream is connected, and the page goes on showing the latest health.
  pub handle_all-IsShown :
      (events : List (StreamEvent H M R)) (s : Stream H M R)
      → IsShown s
      → IsShown (handle_all events s)
  handle_all-IsShown [] s v = v
  handle_all-IsShown (e ∷ events) s v =
      handle_all-IsShown events (handle_event e s) (handle_event-IsShown e s v)
