-- ===== src/Detection/AuthBurst.antt =====
-- internal/detection/auth_burst.go: AuthFailureBurstRule.
pub mod Firing
pub mod Resets
use log_analytics_and_anomal.Prelude.{
  ℕ, Bool, true, false, not, ◌||◌, List, [], ◌∷◌, ◌++◌, Option, none, some, Text, text_key, text,
  text_eq, pos, leb_ℤ, ltb_ℤ, if◌then◌else◌, ◌==◌,
}
use log_analytics_and_anomal.Assoc.{lookup, update_all, retain}
use log_analytics_and_anomal.Domain.{Time, LogEntry, Anomaly, auth_failures, zero_time, string_in}
use log_analytics_and_anomal.Runtime.{Runtime, contains, to_lower}
use log_analytics_and_anomal.Detection.Config.{AuthBurstConfig, Moment}
use log_analytics_and_anomal.Detection.SlidingWindow.{SlidingWindow, count_within, evict_older}
use log_analytics_and_anomal.Detection.Windows.{window_at, observe}

pub record AuthFailureBurstRule : Type 0 where
  pub windows : List (Text × SlidingWindow)
  pub cfg : AuthBurstConfig
  pub capacity : ℕ

abbrev or_default : Text → Text → Text
or_default [] d = d
or_default (c ∷ s) d = c ∷ s

unfoldable pub new_auth_failure_burst_rule : AuthBurstConfig → AuthFailureBurstRule
new_auth_failure_burst_rule cfg = record {
  windows = [];
  cfg = record cfg {
    ip_field = or_default cfg.ip_field (text "source_ip");
    user_field = or_default cfg.user_field (text "username");
  };
  capacity = 10000;
}

abbrev pub auth_failure_name : Text
auth_failure_name = text "auth_failure_burst"

abbrev says_failure : Option Text → Bool
says_failure none = false
says_failure (some s) = text_eq s (text "failure")

unfoldable pub is_auth_failure : Runtime → LogEntry → Bool
is_auth_failure rt entry =
    let msg = to_lower rt entry.message in
    if not (text_eq entry.level (text "error"))
    then false
    else if contains msg (text "auth")
        || contains msg (text "login")
        || contains msg (text "unauthorized")
    then true
    else says_failure (string_in (lookup (text "auth_result") entry.fields))

-- The text of a field, or "" if it is absent, no string or empty.
abbrev text_or_empty : Option Text → Text
text_or_empty none = []
text_or_empty (some s) = s

-- The key: the address if there is one, else the user name; "" if there is neither.
unfoldable pub burst_key : AuthBurstConfig → LogEntry → Text
burst_key cfg entry =
    or_default (text_or_empty (string_in (lookup cfg.ip_field entry.fields)))
      (text_or_empty (string_in (lookup cfg.user_field entry.fields)))

abbrev auth_failure_anomaly : AuthBurstConfig → LogEntry → Moment → Text → ℕ → Anomaly
auth_failure_anomaly cfg entry at key count = record {
  id = at.uuid;
  rule_id = auth_failure_name;
  severity = cfg.severity;
  service = entry.service;
  description = auth_failures count key cfg.window;
  evidence = entry ∷ [];
  detected_at = at.detected;
}

unfoldable pub evaluate_auth_burst :
    Runtime → AuthFailureBurstRule → LogEntry → Moment → AuthFailureBurstRule × Option Anomaly
evaluate_auth_burst rt r entry at =
    let key = burst_key r.cfg entry in
    let windows = observe zero_time r.capacity key entry.timestamp r.windows in
    let r' = record r { windows = windows } in
    let count = count_within (window_at zero_time r.capacity windows key) r.cfg.window at.counted in
    if not (is_auth_failure rt entry)
    then (r, none)
    else if text_eq key []
    then (r, none)
    else if ltb_ℤ (pos count) r.cfg.threshold
    then (r', none)
    else (r', some (auth_failure_anomaly r.cfg entry at key count))

-- Each buffer is evicted at one reading of the clock, and its key deleted if, at another, none of
-- its timestamps is live.
unfoldable pub reset_auth_burst :
    AuthFailureBurstRule → (Text → Time) → (Text → Time) → AuthFailureBurstRule
reset_auth_burst r now later = record r {
  windows =
      retain (λ key w. not (count_within w r.cfg.window (later key) == 0))
        (update_all (λ key w. evict_older w r.cfg.window (now key)) r.windows);
}
