-- ===== src/Detection/Engine/Trace.antt =====
-- The engine's cooldown map and its counter are what the sequence of cooldown events makes of them:
-- so what Cooldown/Spacing.antt proves of such sequences holds of the engine.
use log_analytics_and_anomal.Prelude.{
  ℕ, ◌+◌, ◌≡◌, refl, sym, ap₂, ◌∙◌, List, [], ◌∷◌, ◌++◌, Option, none, some, Text, arith,
  if◌then◌else◌,
}
use log_analytics_and_anomal.Domain.{Time, Duration, LogEntry, Anomaly, before}
use log_analytics_and_anomal.Runtime.{Runtime}
use log_analytics_and_anomal.Detection.Config.{Moment}
use log_analytics_and_anomal.Detection.Detector.{Detector, evaluate_detector, check_first_silence}
use log_analytics_and_anomal.Detection.Cooldown.{CooldownKey, Cooldowns, key_of, admit, sweep}
use log_analytics_and_anomal.Detection.Cooldown.Spacing.{CooldownEvent, attempt, eviction}
use log_analytics_and_anomal.Detection.Engine.{
  DetectorEngine, Reading, emit, offer, offer_if, dispatch, evaluate, offer_all, silence_tick,
  evict_tick,
}

-- The calls that take the cooldown lock, with their readings of the clock.
pub data Call : Type 0 where
  evaluates : LogEntry → Time → (ℕ → Reading) → Call
  watches : Time → (Text → Moment) → (ℕ → Reading) → Call
  evicts : (Text → Time) → (Text → Time) → (CooldownKey → Time) → Call

module _ (rt : Runtime) where
  abbrev pub step : DetectorEngine → Call → DetectorEngine
  step e (evaluates entry now at) = evaluate rt e entry now at
  step e (watches now at readings) = silence_tick e now at readings
  step e (evicts now later swept) = evict_tick e now later swept

  abbrev pub run : DetectorEngine → List Call → DetectorEngine
  run e [] = e
  run e (c ∷ cs) = run (step e c) cs

  abbrev attempt_of : Anomaly → Reading → CooldownEvent
  attempt_of a at = attempt (key_of a) at.now at.stamp

  abbrev attempt_if : Option Anomaly → Reading → List CooldownEvent
  attempt_if none at = []
  attempt_if (some a) at = attempt_of a at ∷ []

  -- The anomalies that the detectors raise, each an attempt.
  abbrev attempts : LogEntry → (ℕ → Reading) → ℕ → List Detector → List CooldownEvent
  attempts entry at i [] = []
  attempts entry at i (d ∷ ds) =
      attempt_if (evaluate_detector rt d entry (at i).moment).1 (at i)
      ++ attempts entry at (i + 1) ds

  abbrev attempts_all : List Anomaly → (ℕ → Reading) → ℕ → List CooldownEvent
  attempts_all [] at i = []
  attempts_all (a ∷ rest) at i = attempt_of a (at i) ∷ attempts_all rest at (i + 1)

  -- The cooldown events of a call.
  abbrev events_of : DetectorEngine → Call → List CooldownEvent
  events_of e (evaluates entry now at) =
      if before now e.warmup_until then [] else attempts entry at 0 e.detectors
  events_of e (watches now at readings) =
      if before now e.warmup_until
      then []
      else attempts_all (check_first_silence e.detectors at).1 readings 0
  events_of e (evicts now later swept) = eviction swept ∷ []

  abbrev pub trace : DetectorEngine → List Call → List CooldownEvent
  trace e [] = []
  trace e (c ∷ cs) = events_of e c ++ trace (step e c) cs

-- The cooldown map and the counter of rule names, driven by the events alone.
abbrev Driven : Type 0
Driven = Cooldowns × List Text

pub drive_one : Duration → CooldownEvent → Driven → Driven
drive_one cd (attempt key now stamp) (c, labels) =
    let r = admit cd key now stamp c in (r.0, if r.1 then key.rule_id ∷ labels else labels)
drive_one cd (eviction now) (c, labels) = (sweep cd now c, labels)

abbrev pub drive : Duration → List CooldownEvent → Driven → Driven
drive cd [] s = s
drive cd (ev ∷ es) s = drive cd es (drive_one cd ev s)

drive-append :
    (cd : Duration) (xs ys : List CooldownEvent) (s : Driven)
    → drive cd (xs ++ ys) s ≡ drive cd ys (drive cd xs s)
drive-append cd [] ys s = refl
drive-append cd (x ∷ xs) ys s = drive-append cd xs ys (drive_one cd x s)

abbrev pub driven_part : DetectorEngine → Driven
driven_part e = (e.cooldowns, e.detected_total)

-- An engine that came from another by cooldown events alone.
abbrev Moves : DetectorEngine → List CooldownEvent → DetectorEngine → Type 0
Moves e es f =
    (f.cooldown_dur ≡ e.cooldown_dur) × (driven_part f ≡ drive e.cooldown_dur es (driven_part e))

Moves-trans :
    (e f g : DetectorEngine) (xs ys : List CooldownEvent)
    → Moves e xs f
    → Moves f ys g
    → Moves e (xs ++ ys) g
Moves-trans e f g xs ys (d1, m1) (d2, m2) = (
  d2 ∙ d1,
  m2 ∙ ap₂ (λ d s. drive d ys s) d1 m1 ∙ sym (drive-append e.cooldown_dur xs ys (driven_part e)),
)

module _ (rt : Runtime) where
  offer-Moves :
      (e : DetectorEngine) (a : Anomaly) (at : Reading)
      → Moves e (attempt_of rt a at ∷ []) (offer e a at)
  unfolding offer emit drive_one
  offer-Moves e a at = ground arith

  offer_if-Moves :
      (e : DetectorEngine) (o : Option Anomaly) (at : Reading)
      → Moves e (attempt_if rt o at) (offer_if e o at)
  offer_if-Moves e none at = (refl, refl)
  offer_if-Moves e (some a) at = offer-Moves e a at

  dispatch-Moves :
      (entry : LogEntry) (at : ℕ → Reading) (i : ℕ) (ds : List Detector) (e : DetectorEngine)
      → Moves e (attempts rt entry at i ds) (dispatch rt entry at i ds e).1
  unfolding dispatch
  dispatch-Moves entry at i [] e = (refl, refl)
  dispatch-Moves entry at i (d ∷ ds) e =
      let o = (evaluate_detector rt d entry (at i).moment).1 in
      Moves-trans e (offer_if e o (at i)) (dispatch rt entry at (i + 1) ds (offer_if e o (at i))).1
        (attempt_if rt o (at i)) (attempts rt entry at (i + 1) ds) (offer_if-Moves e o (at i))
        (dispatch-Moves entry at (i + 1) ds (offer_if e o (at i)))

  offer_all-Moves :
      (e : DetectorEngine) (found : List Anomaly) (at : ℕ → Reading) (i : ℕ)
      → Moves e (attempts_all rt found at i) (offer_all e found at i)
  unfolding offer_all
  offer_all-Moves e [] at i = (refl, refl)
  offer_all-Moves e (a ∷ rest) at i =
      Moves-trans e (offer e a (at i)) (offer_all (offer e a (at i)) rest at (i + 1))
        (attempt_of rt a (at i) ∷ []) (attempts_all rt rest at (i + 1)) (offer-Moves e a (at i))
        (offer_all-Moves (offer e a (at i)) rest at (i + 1))

  step-Moves : (e : DetectorEngine) (c : Call) → Moves e (events_of rt e c) (step rt e c)
  unfolding evaluate silence_tick evict_tick drive_one
  step-Moves e (evaluates entry now at) = ground (arith, dispatch-Moves entry at 0 e.detectors e)
  step-Moves e (watches now at readings) =
      let r = check_first_silence e.detectors at in
      ground (arith, offer_all-Moves (record e { detectors = r.0 }) r.1 readings 0)
  step-Moves e (evicts now later swept) = (refl, refl)

  run-Moves : (e : DetectorEngine) (cs : List Call) → Moves e (trace rt e cs) (run rt e cs)
  run-Moves e [] = (refl, refl)
  run-Moves e (c ∷ cs) =
      Moves-trans e (step rt e c) (run rt (step rt e c) cs) (events_of rt e c)
        (trace rt (step rt e c) cs) (step-Moves e c) (run-Moves (step rt e c) cs)

  -- Over any sequence of Evaluate calls and ticks of the two loops, the engine's cooldown map and the increments of
  -- anomalies_detected_total are those of its cooldown events, taken one after another: each
  -- anomaly that a detector raises is one attempt, and is counted exactly if it is admitted.
  pub run_driven :
      (e : DetectorEngine) (cs : List Call)
      → driven_part (run rt e cs) ≡ drive e.cooldown_dur (trace rt e cs) (driven_part e)
  run_driven e cs = (run-Moves e cs).1
