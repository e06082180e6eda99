-- ===== src/Controller/App/Confirmation/Laws.antt =====
-- Which promises of a confirmation are answered.
use strom.Prelude.{◌+◌, ◌≡◌, refl, Bool, none, [], ◌∷◌, ◌++◌}
use strom.Controller.App.Confirmation.{Confirmation, request_confirmation, close_confirmation}

-- A second close answers nothing: a promise is answered by the first one.
pub close_twice :
    (accepted again : Bool) (c : Confirmation)
    → close_confirmation again (close_confirmation accepted (request_confirmation c))
      ≡ close_confirmation accepted (request_confirmation c)
unfolding request_confirmation close_confirmation
close_twice accepted again c = refl

-- If a confirmation is requested while another one is open, the close answers only the second
-- promise, and the first one is never answered: no resolver of it is left.
pub request_twice :
    (accepted : Bool) (c : Confirmation)
    → ((close_confirmation accepted (request_confirmation (request_confirmation c))).answers
        ≡ c.answers ++ record { promise = c.next_promise + 1; accepted = accepted } ∷ [])
      × ((close_confirmation accepted (request_confirmation (request_confirmation c))).resolver
          ≡ none)
unfolding request_confirmation close_confirmation
request_twice accepted c = (refl, refl)
