-- ===== src/Alert/Fanout.antt =====
-- Every anomaly that the dispatcher receives goes to both outputs, whatever either of them answers.
use log_analytics_and_anomal.Prelude.{
  ◌≡◌, sym, ap, ◌∙◌, List, [], ◌∷◌, ◌++◌, Option, none, some, Text, arith, append_assoc, append-nil,
}
use log_analytics_and_anomal.Domain.{Anomaly}
use log_analytics_and_anomal.Alert.{
  Event, received, cancelled, Dispatcher, Outcome, returned, waiting, index_step, alert_step, run,
}

-- The anomalies received before the channel closes or the context ends.
abbrev taken : List Event → List Anomaly
taken [] = []
taken (received none ∷ rest) = []
taken (cancelled e ∷ rest) = []
taken (received (some a) ∷ rest) = a ∷ taken rest

abbrev pub state_of : Outcome → Dispatcher
state_of (returned d e) = d
state_of (waiting d) = d

-- Those that a channel is sent: all, or none without a channel.
abbrev sent_to : Option (Anomaly → Option Text) → List Anomaly → List Anomaly
sent_to none xs = []
sent_to (some send) xs = xs

module _ (index_anomaly : Anomaly → Option Text)
    (alert_channel : Option (Anomaly → Option Text)) where
  alerted-step :
      (channel : Option (Anomaly → Option Text)) (before : List Anomaly) (a : Anomaly)
      (rest : List Anomaly)
      → (before ++ sent_to channel (a ∷ [])) ++ sent_to channel rest
        ≡ before ++ sent_to channel (a ∷ rest)
  alerted-step none before a rest = ap (λ xs. xs ++ []) (append-nil before)
  alerted-step (some send) before a rest = append_assoc before (a ∷ []) rest

  alerted-alert_step :
      (d : Dispatcher) (a : Anomaly)
      → ((alert_step index_anomaly alert_channel d a).alerted
          ≡ d.alerted ++ sent_to alert_channel (a ∷ []))
        × ((alert_step index_anomaly alert_channel d a).indexed ≡ d.indexed)
  unfolding alert_step
  alerted-alert_step d a = ground (arith, append-nil d.alerted)

  nothing :
      (d : Dispatcher)
      → (d.indexed ≡ d.indexed ++ []) × (d.alerted ≡ d.alerted ++ sent_to alert_channel [])
  nothing d = (sym (append-nil d.indexed), ground (arith, append-nil d.alerted))

  -- Whatever the store and the channel answer, Run indexes every anomaly that it receives before
  -- the channel closes or the context ends, and sends every one of them to the alert channel if
  -- there is one: each once, in order, and nothing else.
  pub run_fans_out :
      (d : Dispatcher) (es : List Event)
      → let d' = state_of (run index_anomaly alert_channel d es) in
        (d'.indexed ≡ d.indexed ++ taken es)
        × (d'.alerted ≡ d.alerted ++ sent_to alert_channel (taken es))
  unfolding run index_step
  run_fans_out d [] = nothing d
  run_fans_out d (received none ∷ rest) = nothing d
  run_fans_out d (cancelled e ∷ rest) = nothing d
  run_fans_out d (received (some a) ∷ rest) =
      let d' = index_step index_anomaly alert_channel d a in
      let s = alerted-alert_step d' a in
      let ih = run_fans_out (alert_step index_anomaly alert_channel d' a) rest in
      (
        ih.0 ∙ ap (λ xs. xs ++ taken rest) s.1 ∙ append_assoc d.indexed (a ∷ []) (taken rest),
        ih.1
            ∙ ap (λ xs. xs ++ sent_to alert_channel (taken rest)) s.0
            ∙ alerted-step alert_channel d.alerted a (taken rest),
      )
