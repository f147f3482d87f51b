-- ===== src/Detection/OffHours/Hours.antt =====
-- When OffHoursAccessRule fires, and what its hours mean.
use log_analytics_and_anomal.Prelude.{
  ℕ, ◌≡◌, Bool, false, not, ◌&&◌, [], Option, none, some, Text, text_key, text, text_eq, pos, ◌≤ℤ◌,
  leb_ℤ, ltb_ℤ, arith,
}
use log_analytics_and_anomal.Assoc.{lookup}
use log_analytics_and_anomal.Domain.{LogEntry, string_in}
use log_analytics_and_anomal.Runtime.{hour_in}
use log_analytics_and_anomal.Detection.Config.{OffHoursConfig, Moment}
use log_analytics_and_anomal.Detection.Recording.{is_some}
use log_analytics_and_anomal.Detection.OffHours.{
  OffHoursAccessRule, evaluate_off_hours, is_sensitive_path,
}

abbrev pub has_path : (Text → Bool) → Option Text → Bool
has_path p none = false
has_path p (some path) = not (text_eq path []) && p path

abbrev pub in_business_hours : OffHoursConfig → ℕ → Bool
in_business_hours cfg hour =
    leb_ℤ cfg.business_hours_start (pos hour) && ltb_ℤ (pos hour) cfg.business_hours_end

-- The rule fires exactly on an entry whose path is a text that is not empty and has a configured
-- prefix, when the hour of its timestamp in the rule's zone lies outside the business hours.
pub evaluate_off_hours_exact :
    (r : OffHoursAccessRule) (e : LogEntry) (at : Moment)
    → is_some (evaluate_off_hours r e at) ≡ (
        has_path
          (is_sensitive_path r.cfg.sensitive_paths)
          (string_in (lookup (text "path") e.fields))
        && not (in_business_hours r.cfg (hour_in r.loc e.timestamp)))
unfolding evaluate_off_hours
evaluate_off_hours_exact r e at = ground arith

-- Business hours that begin no earlier than they end, as a night shift would be written, hold no
-- hour: every access to a sensitive path fires, at any time.
pub evaluate_off_hours_night_shift :
    (r : OffHoursAccessRule) (e : LogEntry) (at : Moment)
    → r.cfg.business_hours_end ≤ℤ r.cfg.business_hours_start
    → is_some (evaluate_off_hours r e at)
      ≡ has_path
          (is_sensitive_path r.cfg.sensitive_paths)
          (string_in (lookup (text "path") e.fields))
unfolding evaluate_off_hours
evaluate_off_hours_night_shift r e at h = ground arith
