-- ===== src/Alert.antt =====
-- Dispatcher of internal/alert/dispatcher.go. The store and the alert channel are parameters: what
-- each call returns. Run takes the events that its select sees.
pub mod Fanout
use log_analytics_and_anomal.Prelude.{
  ℕ, Bool, true, false, List, [], ◌∷◌, ◌++◌, Option, none, some, Text, if◌then◌else◌, map,
}
use log_analytics_and_anomal.Domain.{Anomaly}

-- A case of the select: a receive (none for a closed channel), or the end of the context with its
-- error.
pub data Event : Type 0 where
  received : Option Anomaly → Event
  cancelled : Text → Event

-- What a dispatcher has done: the calls that it made, in order, and the errors that it logged.
pub record Dispatcher : Type 0 where
  pub indexed : List Anomaly
  pub alerted : List Anomaly
  pub errors : List Text

pub data Outcome : Type 0 where
  -- Run has returned nil, or an error
  returned : Dispatcher → Option Text → Outcome
  -- every event is used up, and Run waits
  waiting : Dispatcher → Outcome

abbrev log_error : Option Text → List Text → List Text
log_error none log = log
log_error (some e) log = log ++ e ∷ []

module _ (index_anomaly : Anomaly → Option Text)
    (alert_channel : Option (Anomaly → Option Text)) where
  unfoldable pub index_step : Dispatcher → Anomaly → Dispatcher
  index_step d a = record d {
    indexed = d.indexed ++ a ∷ [];
    errors = log_error (index_anomaly a) d.errors;
  }

  unfoldable pub alert_step : Dispatcher → Anomaly → Dispatcher
  alert_step d a = elim alert_channel [
    | none ↦ d
    | some send ↦ record d { alerted = d.alerted ++ a ∷ []; errors = log_error (send a) d.errors }
  ]

  unfoldable pub run : Dispatcher → List Event → Outcome
  unfolding index_step alert_step
  run d [] = waiting d
  run d (received none ∷ rest) = returned d none
  run d (cancelled e ∷ rest) = returned d (some e)
  run d (received (some a) ∷ rest) = run (alert_step (index_step d a) a) rest
