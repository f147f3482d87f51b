-- ===== src/Tools/Producer.antt =====
-- The workers of cmd/loadtest/main.go and cmd/e2etest/main.go, which are the same loop over phases of
-- their own. The client's Produce is not under src/: whether its callback gets an error is a parameter.
pub mod Counting
use log_analytics_and_anomal.Prelude.{
  ℕ, zero, suc, Bool, true, false, List, [], ◌∷◌, ◌++◌, Option, none, some, ℤ, pos_part, ◌-ℤ◌,
  if◌then◌else◌,
}
use log_analytics_and_anomal.Domain.{Time, Duration, Float64, after}
use log_analytics_and_anomal.Tools.Random.{Gen, ◌>>=◌, return}
use log_analytics_and_anomal.Tools.Message.{LogMsg}
use log_analytics_and_anomal.Tools.Schedule.{active, batch_size}

-- What a worker's select sees: the context is done, or a tick, with the two readings of the clock.
pub data Event : Type 0 where
  done : Event
  tick : Time → Time → Event

-- The messages handed to Produce, and the two counters that its callbacks raise.
pub record Sent : Type 0 where
  pub produced : List LogMsg
  pub sent : ℕ
  pub dropped : ℕ

module _ {S P : Type 0} (start finish : P → Duration) (generate : P → Time → Gen S LogMsg)
    (multiplier : P → Float64) (outside : Float64 → ℤ) (fails : LogMsg → Bool) (rate : ℤ)
    (phases : List P) (start_time deadline : Time) where
  unfoldable pub produce : LogMsg → Sent → Sent
  produce m out = record {
    produced = out.produced ++ m ∷ [];
    sent = if fails m then out.sent else suc out.sent;
    dropped = if fails m then suc out.dropped else out.dropped;
  }

  -- The loop over a batch; `clock` is the reading of each generator.
  unfoldable pub produce_batch : ℕ → (ℕ → Time) → P → Sent → Gen S Sent
  unfolding produce
  produce_batch zero clock p out = return out
  produce_batch (suc left) clock p out = do
    m ← generate p (clock left)
    produce_batch left clock p (produce m out)

  abbrev pub in_phase : (ℕ → Time) → Option P → Sent → Gen S Sent
  in_phase clock none out s = none
  in_phase clock (some p) out s =
      produce_batch (pos_part (batch_size outside rate (multiplier p))) clock p out s

  -- The worker: it returns where the context is done, and at the first tick after the deadline.
  unfoldable pub worker : List (Event × (ℕ → Time)) → Sent → Gen S Sent
  unfolding produce_batch active
  worker [] out = return out
  worker ((done, clock) ∷ events) out = return out
  worker ((tick now later, clock) ∷ events) out = if after now deadline then return out else do
    next ← in_phase clock (active start finish phases (later -ℤ start_time)) out
    worker events next
