-- ===== src/Controller/App/Toasts/Laws.antt =====
-- How long a toast of an error is on the page.
use strom.Prelude.{
  Text, ◌≡◌, refl, ◌∙◌, Bool, true, false, Option, none, some, List, [], ◌∷◌, arith, All,
}
use strom.Controller.App.Toasts.{
  error, ToastRequest, auto_hide_duration, show_toast, close_toast, dismiss, timeout, clickaway,
  escape_key_down, Snackbar, Page, Event, show, close, press_close, pass, shown, passed, handle,
  run,
}

-- Neither another toast, nor the button, nor the key Escape.
abbrev pub is_passive : Event → Bool
is_passive (close escape_key_down) = false
is_passive (close _) = true
is_passive (pass time) = true
is_passive _ = false

-- The Snackbar has the duration of the toast.
abbrev pub IsRendered : {T : Type 0} → Snackbar T → Page T → Type 0
IsRendered snackbar p = snackbar.duration p.bar ≡ auto_hide_duration p.toast

abbrev error_toast : Text → Option ToastRequest
error_toast message = some (record { message = message; severity = error })

no_duration :
    (message : Text) (toast : Option ToastRequest)
    → toast ≡ error_toast message
    → auto_hide_duration toast ≡ none
no_duration message toast t = rw t (unfold auto_hide_duration in refl)

module _ {T : Type 0} (snackbar : Snackbar T) where
  shown-IsRendered :
      (toast : Option ToastRequest) (bar : T) → IsRendered snackbar (shown snackbar toast bar)
  shown-IsRendered toast bar = snackbar.duration-render _ _ bar

  passed-kept :
      (toast : Option ToastRequest) (bar : T)
      → snackbar.duration bar ≡ none
      → (passed snackbar toast bar).toast ≡ toast
  passed-kept toast bar h = rw (snackbar.fires_none bar h) refl

  handle-IsRendered : (e : Event) (p : Page T) → IsRendered snackbar (handle snackbar e p)
  unfolding handle close_toast dismiss
  handle-IsRendered (show message severity) p =
      shown-IsRendered (show_toast message severity p.toast) p.bar
  handle-IsRendered (close timeout) p = shown-IsRendered _ p.bar
  handle-IsRendered (close clickaway) p = shown-IsRendered p.toast p.bar
  handle-IsRendered (close escape_key_down) p = shown-IsRendered none p.bar
  handle-IsRendered press_close p = shown-IsRendered none p.bar
  handle-IsRendered (pass time) p = shown-IsRendered _ (snackbar.elapse time p.bar)

  handle-kept :
      (e : Event) (message : Text) (p : Page T)
      → is_passive e ≡ true
      → p.toast ≡ error_toast message
      → IsRendered snackbar p
      → (handle snackbar e p).toast ≡ error_toast message
  unfolding handle close_toast
  handle-kept (show text severity) message p passive t r = absurd (ground arith)
  handle-kept (close timeout) message p passive t r =
      passed-kept p.toast p.bar (r ∙ no_duration message p.toast t) ∙ t
  handle-kept (close clickaway) message p passive t r = t
  handle-kept (close escape_key_down) message p passive t r = absurd (ground arith)
  handle-kept press_close message p passive t r = absurd (ground arith)
  handle-kept (pass time) message p passive t r =
      passed-kept p.toast (snackbar.elapse time p.bar)
        (snackbar.duration-elapse time p.bar ∙ r ∙ no_duration message p.toast t)
      ∙ t

  -- Whatever time passes and wherever else the user clicks, a toast of an error that the Snackbar shows
  -- stays: it ends only by its button, by the key Escape or by a later toast.
  pub run-error :
      (es : List Event) (message : Text) (p : Page T)
      → All (λ e. is_passive e ≡ true) es
      → p.toast ≡ error_toast message
      → IsRendered snackbar p
      → (run snackbar es p).toast ≡ error_toast message
  run-error [] message p h t r = t
  run-error (e ∷ es) message p h t r =
      run-error es message (handle snackbar e p) h.1 (handle-kept e message p h.0 t r)
        (handle-IsRendered e p)
