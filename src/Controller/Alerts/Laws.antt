-- ===== src/Controller/Alerts/Laws.antt =====
-- What the page sends.
use strom.Prelude.{
  ℕ, Bool-cases, inl, inr, ◌≡◌, ◌≢◌, refl, Text, codes, Bool, true, false, Option, List, [], ◌∷◌,
  ◌++◌, All, All-append,
}
use strom.Controller.NodeDialog.{Reply, ok, failed}
use strom.Controller.Api.{
  Field, Request, text, number, fetch_alert_rules, fetch_alert_events, create_alert_rule,
  delete_alert_rule, test_alert_rule,
}
use strom.Controller.Alerts.{
  AlertKind, node_offline, comms_lost, on_battery, low_battery, kind_text, RuleForm, AlertsPage,
  JsNumbers, or_default, rule_payload, load_begin, load_end, create_begin, create_end, delete_begin,
  delete_end, test_begin, test_end, change_kind, change_webhook_url, change_debounce_seconds,
  change_threshold,
}

-- The fields of a rule without and with a variable, from the JSON of its numbers.
abbrev pub plain_rule : AlertKind → Text → Text → List Field
plain_rule kind url debounce =
    record { name = codes "kind"; value = text (kind_text kind) }
    ∷ record { name = codes "webhook_url"; value = text url }
    ∷ record { name = codes "debounce_seconds"; value = number debounce }
    ∷ []

abbrev pub charge_rule : Text → Text → Text → List Field
charge_rule url debounce threshold =
    plain_rule low_battery url debounce
    ++ record { name = codes "threshold"; value = number threshold }
      ∷ record { name = codes "ups_var"; value = text (codes "battery.charge") }
      ∷ []

module _ (n : JsNumbers) where
  open n use {Number, of_text, of_ℕ, is_truthy, to_json, is_truthy-of_ℕ}

  -- The requests of the page: a rule has a debounce that counts as true, and the number of the typed
  -- threshold and the variable it is for exactly if it is about a low battery.
  pub data IsTyped : Request → Type 0 where
    rules : IsTyped fetch_alert_rules
    events : IsTyped (fetch_alert_events 50)
    plain :
        (kind : AlertKind) (url : Text) (debounce : Number)
        → kind ≢ low_battery
        → is_truthy debounce ≡ true
        → IsTyped (create_alert_rule (plain_rule kind url (to_json debounce)))
    charge :
        (url : Text) (debounce : Number) (threshold : Text)
        → is_truthy debounce ≡ true
        → IsTyped
            (create_alert_rule (charge_rule url (to_json debounce) (to_json (of_text threshold))))
    removal : (id : ℕ) → IsTyped (delete_alert_rule id)
    trial : (id : ℕ) → IsTyped (test_alert_rule id)

  form-IsTyped :
      (form : RuleForm Number)
      → is_truthy form.debounce_seconds ≡ true
      → IsTyped (create_alert_rule (rule_payload n form))
  unfolding rule_payload
  form-IsTyped form h = go form.kind refl
    where
      go : (kind : AlertKind) → form.kind ≡ kind → IsTyped (create_alert_rule (rule_payload n form))
      go node_offline e =
          rw e (plain node_offline form.webhook_url form.debounce_seconds (λ d. cc) h)
      go comms_lost e = rw e (plain comms_lost form.webhook_url form.debounce_seconds (λ d. cc) h)
      go on_battery e = rw e (plain on_battery form.webhook_url form.debounce_seconds (λ d. cc) h)
      go low_battery e = rw e (charge form.webhook_url form.debounce_seconds form.threshold h)

  or_default_lem : (value : Number) → is_truthy (or_default n value) ≡ true
  or_default_lem value = elim (Bool-cases (is_truthy value)) [
    | inl e ↦ rw e e
    | inr e ↦ rw e (is_truthy-of_ℕ 299)
  ]

module _ (n : JsNumbers) {R E : Type 0} where
  open n use {Number, is_truthy}

  pub data Step (s : AlertsPage Number R E) : AlertsPage Number R E → Type 0 where
    load_answered : (reply : Reply (Option (List R) × Option (List E))) → Step s (load_end reply s)
    submitted : Step s (create_begin n s)
    create_answered : (kind : AlertKind) (reply : Reply Unit) → Step s (create_end kind reply s)
    delete_clicked : (confirmed : Bool) (id : ℕ) → Step s (delete_begin confirmed id s)
    delete_answered : (id : ℕ) (reply : Reply Unit) → Step s (delete_end id reply s)
    test_clicked : (id : ℕ) → Step s (test_begin id s)
    test_answered : (id : ℕ) (reply : Reply Unit) → Step s (test_end id reply s)
    kind_chosen : (kind : AlertKind) → Step s (change_kind kind s)
    url_typed : (url : Text) → Step s (change_webhook_url url s)
    debounce_typed : (value : Text) → Step s (change_debounce_seconds n value s)
    threshold_typed : (value : Text) → Step s (change_threshold value s)

  pub data Session (s₀ : AlertsPage Number R E) : AlertsPage Number R E → Type 0 where
    start : Session s₀ (load_begin s₀)
    next : {s t : AlertsPage Number R E} → Session s₀ s → Step s t → Session s₀ t

  pub record IsSound (s : AlertsPage Number R E) : Type 0 where
    pub debounced : is_truthy s.form.debounce_seconds ≡ true
    pub typed : All (IsTyped n) s.sent

  load-IsSound : (s : AlertsPage Number R E) → IsSound s → IsSound (load_begin s)
  unfolding load_begin
  load-IsSound s h = record {
    debounced = h.debounced;
    typed =
        All-append (IsTyped n) s.sent (fetch_alert_rules ∷ fetch_alert_events 50 ∷ []) h.typed
          (rules, (events, tt));
  }

  sent-IsTyped :
      (s : AlertsPage Number R E) (r : Request)
      → All (IsTyped n) s.sent
      → IsTyped n r
      → All (IsTyped n) (s.sent ++ r ∷ [])
  sent-IsTyped s r h t = All-append (IsTyped n) s.sent (r ∷ []) h (t, tt)

  step-IsSound : (s t : AlertsPage Number R E) → Step s t → IsSound s → IsSound t
  unfolding load_end create_begin create_end delete_begin delete_end test_begin test_end change_kind
      change_webhook_url change_debounce_seconds change_threshold
  step-IsSound s _ (load_answered (ok (rs, es))) h = record {
    debounced = h.debounced;
    typed = h.typed;
  }
  step-IsSound s _ (load_answered (failed thrown)) h = record {
    debounced = h.debounced;
    typed = h.typed;
  }
  step-IsSound s _ submitted h = record {
    debounced = h.debounced;
    typed = sent-IsTyped s _ h.typed (form-IsTyped n s.form h.debounced);
  }
  step-IsSound s _ (create_answered kind (ok done)) h =
      load-IsSound _ (record { debounced = h.debounced; typed = h.typed })
  step-IsSound s _ (create_answered kind (failed thrown)) h = record {
    debounced = h.debounced;
    typed = h.typed;
  }
  step-IsSound s _ (delete_clicked false id) h = h
  step-IsSound s _ (delete_clicked true id) h = record {
    debounced = h.debounced;
    typed = sent-IsTyped s _ h.typed (removal id);
  }
  step-IsSound s _ (delete_answered id (ok done)) h =
      load-IsSound _ (record { debounced = h.debounced; typed = h.typed })
  step-IsSound s _ (delete_answered id (failed thrown)) h = record {
    debounced = h.debounced;
    typed = h.typed;
  }
  step-IsSound s _ (test_clicked id) h = record {
    debounced = h.debounced;
    typed = sent-IsTyped s _ h.typed (trial id);
  }
  step-IsSound s _ (test_answered id (ok done)) h =
      load-IsSound _ (record { debounced = h.debounced; typed = h.typed })
  step-IsSound s _ (test_answered id (failed thrown)) h = record {
    debounced = h.debounced;
    typed = h.typed;
  }
  step-IsSound s _ (kind_chosen kind) h = record { debounced = h.debounced; typed = h.typed }
  step-IsSound s _ (url_typed url) h = record { debounced = h.debounced; typed = h.typed }
  step-IsSound s _ (debounce_typed value) h = record {
    debounced = or_default_lem n (n.of_text value);
    typed = h.typed;
  }
  step-IsSound s _ (threshold_typed value) h = record { debounced = h.debounced; typed = h.typed }

  -- Whatever is typed, clicked and answered, if the debounce counts as true and only such requests were
  -- sent at first: every request of the page is one of its endpoints', and every rule it creates has a
  -- debounce that counts as true, which zero and NaN do not, and a threshold and the variable
  -- `battery.charge` exactly if its kind is that of a low battery, the threshold being the number of
  -- a text.
  pub Session-IsTyped : (s₀ s : AlertsPage Number R E) → IsSound s₀ → Session s₀ s → IsSound s
  Session-IsTyped s₀ _ h start = load-IsSound s₀ h
  Session-IsTyped s₀ _ h (next {s} {t} steps step) =
      step-IsSound s t step (Session-IsTyped s₀ s h steps)
