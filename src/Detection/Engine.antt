-- ===== src/Detection/Engine.antt =====
-- DetectorEngine of internal/detection/engine.go. The channel `out` is a queue, oldest first, of at
-- most 1024 anomalies. A handler takes every reading of the clock that it makes as an argument; the
-- warnings that it logs are left out, the counter anomalies_detected_total is kept.
pub mod Warmup
pub mod Trace
use log_analytics_and_anomal.Prelude.{
  ℕ, suc, ◌+◌, Bool, true, false, List, [], ◌∷◌, ◌++◌, Option, none, some, Text, ℤ, pos, ◌+ℤ◌, ◌*ℤ◌,
  wrap64, ltb_ℤ, leb_ℤ, if◌then◌else◌, length, ltb,
}
use log_analytics_and_anomal.Domain.{Time, Duration, LogEntry, Anomaly, before}
use log_analytics_and_anomal.Runtime.{Runtime}
use log_analytics_and_anomal.Detection.Config.{DetectionConfig, Moment}
use log_analytics_and_anomal.Detection.Detector.{
  Detector, evaluate_detector, reset_detector, check_first_silence,
}
use log_analytics_and_anomal.Detection.Cooldown.{Cooldowns, key_of, admit, sweep, CooldownKey}

pub record DetectorEngine : Type 0 where
  pub detectors : List Detector
  pub cooldowns : Cooldowns
  pub cooldown_dur : Duration
  pub warmup_until : Time
  pub out : List Anomaly
  pub stopped : Bool
  -- the labels with which anomalies_detected_total was incremented, newest first
  pub detected_total : List Text

abbrev pub max_of : Duration → Duration → Duration
max_of a b = if ltb_ℤ a b then b else a

unfoldable pub max_window_duration : DetectionConfig → Duration
max_window_duration cfg =
    let m = max_of cfg.window_duration cfg.rules.error_rate.window in
    let m' = max_of m cfg.rules.latency.window in
    let m'' = max_of m' cfg.rules.repeated_failure.window in
    let m''' = max_of m'' cfg.rules.auth_burst.window in
    max_of m''' cfg.rules.service_silence.silence_after

abbrev pub multiplier_of : DetectionConfig → ℤ
multiplier_of cfg = if leb_ℤ cfg.warmup_multiplier (pos 0) then pos 2 else cfg.warmup_multiplier

-- The goroutines that NewDetectorEngine starts run `silence_tick` and `evict_tick`.
unfoldable pub new_detector_engine : List Detector → DetectionConfig → Time → DetectorEngine
unfolding max_window_duration
new_detector_engine detectors cfg now = record {
  detectors = detectors;
  cooldowns = [];
  cooldown_dur = cfg.cooldown_duration;
  warmup_until = now +ℤ wrap64 (multiplier_of cfg *ℤ max_window_duration cfg);
  out = [];
  stopped = false;
  detected_total = [];
}

abbrev pub out_capacity : ℕ
out_capacity = 1024

-- The counter, then the select. A send on a buffered channel of Go goes through while it holds fewer
-- than its capacity; where it does not, the select takes its default, which drops the anomaly.
unfoldable pub emit : DetectorEngine → Anomaly → DetectorEngine
emit e a = record e {
  detected_total = a.rule_id ∷ e.detected_total;
  out = if ltb (length e.out) out_capacity then e.out ++ a ∷ [] else e.out;
}

-- The clock's readings for one anomaly: in the rule, at Since, at the stamp.
pub record Reading : Type 0 where
  pub moment : Moment
  pub now : Time
  pub stamp : Time

-- The cooldown section and what follows it.
unfoldable pub offer : DetectorEngine → Anomaly → Reading → DetectorEngine
unfolding emit admit
offer e a at =
    let r = admit e.cooldown_dur (key_of a) at.now at.stamp e.cooldowns in
    if r.1 then emit (record e { cooldowns = r.0 }) a else record e { cooldowns = r.0 }

abbrev pub offer_if : DetectorEngine → Option Anomaly → Reading → DetectorEngine
offer_if e none at = e
offer_if e (some a) at = offer e a at

-- The loop over the detectors: what becomes of them, and of the rest of the engine.
unfoldable pub dispatch :
    Runtime
    → LogEntry
    → (ℕ → Reading)
    → ℕ
    → List Detector
    → DetectorEngine
    → List Detector × DetectorEngine
unfolding offer
dispatch rt entry at i [] e = ([], e)
dispatch rt entry at i (d ∷ ds) e =
    let r = evaluate_detector rt d entry (at i).moment in
    let rest = dispatch rt entry at (i + 1) ds (offer_if e r.1 (at i)) in (r.0 ∷ rest.0, rest.1)

unfoldable pub evaluate :
    Runtime → DetectorEngine → LogEntry → Time → (ℕ → Reading) → DetectorEngine
unfolding dispatch
evaluate rt e entry now at =
    let r = dispatch rt entry at 0 e.detectors e in
    if before now e.warmup_until then e else record (r.1) { detectors = r.0 }

unfoldable pub offer_all : DetectorEngine → List Anomaly → (ℕ → Reading) → ℕ → DetectorEngine
unfolding offer
offer_all e [] at i = e
offer_all e (a ∷ rest) at i = offer_all (offer e a (at i)) rest at (i + 1)

-- One tick of silenceWatcher; without a silence rule the goroutine does not run, and this does
-- nothing.
unfoldable pub silence_tick :
    DetectorEngine → Time → (Text → Moment) → (ℕ → Reading) → DetectorEngine
unfolding offer_all
silence_tick e now at readings =
    let r = check_first_silence e.detectors at in
    if before now e.warmup_until then e else offer_all (record e { detectors = r.0 }) r.1 readings 0

reset_all : List Detector → (Text → Time) → (Text → Time) → List Detector
reset_all [] now later = []
reset_all (d ∷ ds) now later = reset_detector d now later ∷ reset_all ds now later

-- One tick of evictLoop.
unfoldable pub evict_tick :
    DetectorEngine → (Text → Time) → (Text → Time) → (CooldownKey → Time) → DetectorEngine
unfolding reset_all
evict_tick e now later swept = record e {
  detectors = reset_all e.detectors now later;
  cooldowns = sweep e.cooldown_dur swept e.cooldowns;
}

-- Stop closes evictStop: both loops end, and no tick follows.
unfoldable pub stop : DetectorEngine → DetectorEngine
stop e = record e { stopped = true }

-- A receive from Anomalies(): none if it would block.
unfoldable pub receive : DetectorEngine → Option (Anomaly × DetectorEngine)
receive e = elim e.out [ [] ↦ none | a ∷ rest ↦ some (a, record e { out = rest }) ]
