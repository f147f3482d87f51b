-- ===== src/Tools/Producer/Counting.antt =====
-- What the workers of the load test and the end-to-end test send.
use log_analytics_and_anomal.Prelude.{
  ℕ, zero, suc, ◌+◌, ◌<◌, ◌≡◌, sym, subst, Bool, List, [], ◌∷◌, ◌++◌, Option, some, ℤ, pos_part,
  ◌-ℤ◌, arith, length, length-append,
}
use log_analytics_and_anomal.Domain.{Time, Duration, Float64, after}
use log_analytics_and_anomal.Tools.Random.{Gen, return, Always, All, bind-Always, choose-Always}
use log_analytics_and_anomal.Tools.Message.{LogMsg}
use log_analytics_and_anomal.Tools.Delivery.{IsKnown}
use log_analytics_and_anomal.Tools.Schedule.{active, active-All, batch_size}
use log_analytics_and_anomal.Tools.Producer.{
  Event, done, tick, Sent, produce, produce_batch, in_phase, worker,
}

-- Each message that was handed to the client is counted once, and its level is known.
pub record Counts (out : Sent) : Type 0 where
  pub counted : out.sent + out.dropped ≡ length out.produced
  pub known : All IsKnown out.produced

All-append :
    (xs : List LogMsg) (m : LogMsg) → All IsKnown xs → IsKnown m → All IsKnown (xs ++ m ∷ [])
All-append [] m a k = (k, tt)
All-append (x ∷ xs) m (a, rest) k = (a, All-append xs m rest k)

module _ {S P : Type 0} (start finish : P → Duration) (generate : P → Time → Gen S LogMsg)
    (multiplier : P → Float64) (outside : Float64 → ℤ) (fails : LogMsg → Bool) (rate : ℤ)
    (phases : List P) (start_time deadline : Time) where
  -- The generator of the phase does not panic, and its logs are at known levels.
  abbrev pub Speaks : P → Type 0
  Speaks p = (now : Time) → Always (generate p now) IsKnown

  abbrev counted_produce : LogMsg → Sent → Sent
  counted_produce =
      produce start finish generate multiplier outside fails rate phases start_time deadline

  produce-Counts :
      (m : LogMsg) (out : Sent) → Counts out → IsKnown m → Counts (counted_produce m out)
  unfolding produce
  produce-Counts m out c k = record {
    counted = ground (arith, length-append out.produced (m ∷ []), c.counted);
    known = All-append out.produced m c.known k;
  }

  abbrev counted_batch : ℕ → (ℕ → Time) → P → Sent → Gen S Sent
  counted_batch =
      produce_batch start finish generate multiplier outside fails rate phases start_time deadline

  produce_batch-Counts :
      (left : ℕ) (clock : ℕ → Time) (p : P) (out : Sent)
      → Speaks p
      → Counts out
      → Always (counted_batch left clock p out) Counts
  unfolding produce_batch
  produce_batch-Counts zero clock p out k c s = c
  produce_batch-Counts (suc left) clock p out k c s =
      bind-Always IsKnown Counts (generate p (clock left)) _ (k (clock left))
        (λ m known. produce_batch-Counts left clock p _ k (produce-Counts m out c known)) s

  abbrev counted_phase : (ℕ → Time) → Option P → Sent → Gen S Sent
  counted_phase =
      in_phase start finish generate multiplier outside fails rate phases start_time deadline

  in_phase-Counts :
      (clock : ℕ → Time) (found : Option P) (p : P) (out : Sent)
      → found ≡ some p
      → Speaks p
      → Counts out
      → Always (counted_phase clock found out) Counts
  in_phase-Counts clock found p out eq k c =
      subst (λ f. Always (counted_phase clock f out) Counts) (sym eq)
        (produce_batch-Counts (pos_part (batch_size outside rate (multiplier p))) clock p out k c)

  pub worker-Counts :
      (events : List (Event × (ℕ → Time))) (out : Sent)
      → 0 < length phases
      → All Speaks phases
      → Counts out
      → Always
          (worker start finish generate multiplier outside fails rate phases start_time deadline
            events out)
          Counts
  unfolding worker
  worker-Counts [] out h a c s = c
  worker-Counts ((done, clock) ∷ events) out h a c s = c
  worker-Counts ((tick now later, clock) ∷ events) out h a c s =
      let elapsed = later -ℤ start_time in
      let (p, eq, k) = active-All start finish Speaks phases elapsed h a in
      choose-Always Counts (after now deadline) (return out) _ (λ s'. c)
        (bind-Always Counts Counts (counted_phase clock (active start finish phases elapsed) out) _
          (in_phase-Counts clock _ p out eq k c) (λ next c'. worker-Counts events next h a c'))
        s
