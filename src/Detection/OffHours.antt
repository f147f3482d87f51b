-- ===== src/Detection/OffHours.antt =====
-- internal/detection/off_hours.go: OffHoursAccessRule.
pub mod Hours
use log_analytics_and_anomal.Prelude.{
  ℕ, Bool, true, false, not, ◌&&◌, ◌||◌, List, [], ◌∷◌, Option, none, some, Text, text_key, text,
  text_eq, pos, leb_ℤ, ltb_ℤ, if◌then◌else◌,
}
use log_analytics_and_anomal.Assoc.{lookup}
use log_analytics_and_anomal.Domain.{LogEntry, Anomaly, off_hours, string_in}
use log_analytics_and_anomal.Runtime.{Runtime, Location, utc, hour_in, has_prefix}
use log_analytics_and_anomal.Detection.Config.{OffHoursConfig, Moment}

pub record OffHoursAccessRule : Type 0 where
  pub cfg : OffHoursConfig
  pub loc : Location

abbrev at_location : OffHoursConfig → Option Location → Option OffHoursAccessRule
at_location cfg none = none
at_location cfg (some loc) = some (record { cfg = cfg; loc = loc })

-- none is the error for a zone that does not load.
unfoldable pub new_off_hours_access_rule : Runtime → OffHoursConfig → Option OffHoursAccessRule
new_off_hours_access_rule rt cfg =
    if text_eq cfg.timezone [] || text_eq cfg.timezone (text "UTC")
    then some (record { cfg = cfg; loc = utc })
    else at_location cfg (rt.load_location cfg.timezone)

abbrev pub off_hours_name : Text
off_hours_name = text "off_hours_access"

unfoldable pub is_sensitive_path : List Text → Text → Bool
is_sensitive_path [] path = false
is_sensitive_path (prefix ∷ rest) path = has_prefix path prefix || is_sensitive_path rest path

abbrev off_hours_anomaly : OffHoursConfig → LogEntry → Moment → Text → ℕ → Anomaly
off_hours_anomaly cfg entry at path hour = record {
  id = at.uuid;
  rule_id = off_hours_name;
  severity = cfg.severity;
  service = entry.service;
  description = off_hours path hour entry.service;
  evidence = entry ∷ [];
  detected_at = at.detected;
}

-- What follows the reading of the path field.
unfoldable evaluate_path : OffHoursAccessRule → LogEntry → Moment → Text → Option Anomaly
unfolding is_sensitive_path
evaluate_path r entry at path =
    let hour = hour_in r.loc entry.timestamp in
    if text_eq path []
    then none
    else if not (is_sensitive_path r.cfg.sensitive_paths path)
    then none
    else if leb_ℤ r.cfg.business_hours_start (pos hour) && ltb_ℤ (pos hour) r.cfg.business_hours_end
    then none
    else some (off_hours_anomaly r.cfg entry at path hour)

-- The rule keeps no state, and its Reset does nothing.
unfoldable pub evaluate_off_hours : OffHoursAccessRule → LogEntry → Moment → Option Anomaly
unfolding evaluate_path
evaluate_off_hours r entry at = elim (string_in (lookup (text "path") entry.fields)) [
  | none ↦ none
  | some path ↦ evaluate_path r entry at path
]
