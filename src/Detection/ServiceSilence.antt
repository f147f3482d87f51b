-- ===== src/Detection/ServiceSilence.antt =====
-- internal/detection/service_silence.go: ServiceSilenceRule. The two maps are changed only under
-- the rule's mutex, so that each method is one step.
pub mod Tracking
pub mod Reports
pub mod Stale
use log_analytics_and_anomal.Prelude.{
  ℕ, suc, ◌+◌, Bool, true, false, not, List, [], ◌∷◌, Option, none, some, Text, text_key, text, ℤ,
  pos, ◌-ℤ◌, ◌*ℤ◌, wrap64, leb_ℤ, ltb_ℤ, if◌then◌else◌,
}
use log_analytics_and_anomal.Assoc.{lookup, insert, remove, retain}
use log_analytics_and_anomal.Domain.{Time, Duration, LogEntry, Anomaly, silence}
use log_analytics_and_anomal.Detection.Config.{ServiceSilenceConfig, Moment}

pub record ServiceSilenceRule : Type 0 where
  pub last_seen : List (Text × Time)
  pub seen_count : List (Text × ℕ)
  pub cfg : ServiceSilenceConfig

unfoldable pub new_service_silence_rule : ServiceSilenceConfig → ServiceSilenceRule
new_service_silence_rule cfg = record { last_seen = []; seen_count = []; cfg = cfg }

abbrev pub service_silence_name : Text
service_silence_name = text "service_silence"

abbrev or_zero : Option ℕ → ℕ
or_zero none = 0
or_zero (some n) = n

-- r.seenCount[service]
abbrev pub seen : ServiceSilenceRule → Text → ℕ
seen r service = or_zero (lookup service r.seen_count)

-- Evaluate stores the clock's reading `at.counted`, not the entry's timestamp, and never fires.
unfoldable pub evaluate_service_silence :
    ServiceSilenceRule → LogEntry → Moment → ServiceSilenceRule
evaluate_service_silence r entry at =
    let n = seen r entry.service + 1 in
    record r {
      seen_count = insert entry.service n r.seen_count;
      last_seen =
          if leb_ℤ r.cfg.min_log_count (pos n)
          then insert entry.service at.counted r.last_seen
          else r.last_seen;
    }

-- time.Since(last), at a reading of the clock
abbrev since : Time → Time → Duration
since now last = now -ℤ last

abbrev pub is_silent : Duration → (Text → Moment) → Text → Time → Bool
is_silent silence_after at service last = ltb_ℤ silence_after (since (at service).counted last)

abbrev silence_anomaly : ServiceSilenceConfig → Moment → Text → Time → Anomaly
silence_anomaly cfg at service last = record {
  id = at.uuid;
  rule_id = service_silence_name;
  severity = cfg.severity;
  service = service;
  description = silence service (since at.counted last) cfg.silence_after;
  evidence = [];
  detected_at = at.detected;
}

silence_anomalies : ServiceSilenceConfig → (Text → Moment) → List (Text × Time) → List Anomaly
silence_anomalies cfg at [] = []
silence_anomalies cfg at ((service, last) ∷ rest) =
    if is_silent cfg.silence_after at service last
    then silence_anomaly cfg (at service) service last ∷ silence_anomalies cfg at rest
    else silence_anomalies cfg at rest

-- CheckSilence reads the clock and draws a UUID for each service; one that is reported is deleted
-- from lastSeen, and seenCount stays.
unfoldable pub check_silence :
    ServiceSilenceRule → (Text → Moment) → ServiceSilenceRule × List Anomaly
unfolding silence_anomalies
check_silence r at = (
  record r { last_seen = retain (λ s t. not (is_silent r.cfg.silence_after at s t)) r.last_seen },
  silence_anomalies r.cfg at r.last_seen,
)

abbrev pub stale_threshold : ServiceSilenceConfig → Duration
stale_threshold cfg = wrap64 (cfg.silence_after *ℤ pos 3)

abbrev pub is_stale : Duration → (Text → Time) → Text → Time → Bool
is_stale threshold now service last = ltb_ℤ threshold (since (now service) last)

-- delete(r.seenCount, service) for the stale services
forget_stale : (Text → Time → Bool) → List (Text × Time) → List (Text × ℕ) → List (Text × ℕ)
forget_stale stale [] counts = counts
forget_stale stale ((service, last) ∷ rest) counts =
    forget_stale stale rest (if stale service last then remove service counts else counts)

unfoldable pub reset_service_silence : ServiceSilenceRule → (Text → Time) → ServiceSilenceRule
unfolding forget_stale
reset_service_silence r now =
    let stale = is_stale (stale_threshold r.cfg) now in
    record r {
      last_seen = retain (λ s t. not (stale s t)) r.last_seen;
      seen_count = forget_stale stale r.last_seen r.seen_count;
    }
