-- ===== src/Tools/TestData/Night.antt =====
-- The off-hours logs of cmd/generate-testdata/main.go, before OffHoursAccessRule.
use log_analytics_and_anomal.Prelude.{
  ℕ, suc, ap₂, ◌+◌, ◌-◌, ◌*◌, ◌/◌, ◌%◌, ◌<◌, ◌≡◌, refl, sym, ap, ◌∙◌, true, not, ◌&&◌, [], some,
  text_key, Text, text, text_eq, pos, ◌+ℤ◌, ◌≤ℤ◌, arith,
}
use log_analytics_and_anomal.Assoc.{lookup}
use log_analytics_and_anomal.Domain.{Time, RawMessage, LogEntry, string, string_in}
use log_analytics_and_anomal.Runtime.{Runtime, has_prefix, hour_of, hour_in, utc}
use log_analytics_and_anomal.Pipeline.{Input, time_or_now}
use log_analytics_and_anomal.Detection.Config.{Moment}
use log_analytics_and_anomal.Detection.Recording.{is_some}
use log_analytics_and_anomal.Detection.OffHours.{
  OffHoursAccessRule, evaluate_off_hours, is_sensitive_path,
}
use log_analytics_and_anomal.Detection.OffHours.Hours.{
  evaluate_off_hours_exact, has_path, in_business_hours,
}
use log_analytics_and_anomal.Tools.Random.{Rand, Always, All, intn_then, pick_then, pick_where}
use log_analytics_and_anomal.Tools.Delivery.{received}
use log_analytics_and_anomal.Tools.TestData.{services, sensitive_paths, off_hour, off_hours_log}

abbrev night_time : ℕ → ℕ → ℕ → ℕ
night_time t h m = t - t % 86400000000000 + (2 + h) * 3600000000000 + m * 60000000000

off_hour_lem : (t h m : ℕ) → off_hour (pos t) h m ≡ pos (night_time t h m)
unfolding ◌+ℤ◌
off_hour_lem t h m = ground arith

hour_of-night_time : (t h m : ℕ) → h < 2 → m < 60 → hour_of (pos (night_time t h m)) ≡ 2 + h
unfolding hour_of
hour_of-night_time t h m lh lm = omega arith

whole_minutes : (t h m : ℕ) → (n : ℕ) × (night_time t h m ≡ n * 1000000000)
whole_minutes t h m = (t / 86400000000000 * 86400 + (2 + h) * 3600 + m * 60, omega arith)

night_time_lt :
    (t h m limit : ℕ)
    → h < 2
    → m < 60
    → t + 14400000000000 < limit * 1000000000
    → night_time t h m < limit * 1000000000
night_time_lt t h m limit lh lm lt = omega arith

-- A path that the list of sensitive paths has a prefix of.
abbrev IsSensitive : Text → Type 0
IsSensitive path = (not (text_eq path []) && is_sensitive_path sensitive_paths path) ≡ true

fires :
    (r : OffHoursAccessRule) (e : LogEntry) (at : Moment) (path : Text) (hour : ℕ)
    → lookup (text "path") e.fields ≡ some (string path)
    → r.cfg.sensitive_paths ≡ sensitive_paths
    → IsSensitive path
    → hour_in r.loc e.timestamp ≡ hour
    → pos (suc hour) ≤ℤ r.cfg.business_hours_start
    → is_some (evaluate_off_hours r e at) ≡ true
fires r e at path hour found same sensitive clock early =
    evaluate_off_hours_exact r e at
    ∙ ap₂
        (λ v ps.
          has_path (is_sensitive_path ps) (string_in v)
          && not (in_business_hours r.cfg (hour_in r.loc e.timestamp)))
        found same
    ∙ ap₂ (λ a h. a && not (in_business_hours r.cfg h)) sensitive clock
    ∙ ground arith

All-IsSensitive : All IsSensitive sensitive_paths
unfolding text_eq is_sensitive_path has_prefix
All-IsSensitive = (refl, (refl, (refl, tt)))

-- The time that the server reads in the message.
read_time :
    (rt : Runtime) (format : Time → Text) (now : Time) (t h m : ℕ)
    → ((n : ℕ)
        → n < 315537897600
        → rt.parse_rfc3339 (format (pos (n * 1000000000))) ≡ some (pos (n * 1000000000)))
    → night_time t h m < 315537897600 * 1000000000
    → time_or_now (rt.parse_rfc3339 (format (off_hour (pos t) h m))) now ≡ pos (night_time t h m)
read_time rt format now t h m times lt =
    let (n, eq) = whole_minutes t h m in
    let read = times n (omega (arith, lt, eq)) in
    ap (λ u. time_or_now (rt.parse_rfc3339 (format u)) now) (off_hour_lem t h m ∙ ap pos eq)
    ∙ ap (λ o. time_or_now o now) read
    ∙ ap pos (sym eq)

hour_in-utc : (n : ℕ) → hour_in utc (pos n) ≡ hour_of (pos n)
unfolding ◌+ℤ◌
hour_in-utc n = let same : pos n +ℤ pos 0 ≡ pos n = ground arith in ap hour_of same

module _ {S : Type 0} (rnd : Rand S) (format : Time → Text) (rt : Runtime) (raw : RawMessage)
    (input : Input) where
  -- Whatever is drawn, off_hours_log does not panic, and a rule for UTC whose sensitive paths are
  -- those of the generator and whose business hours begin at 4 or later fires on its log, as the
  -- server receives it: before the year 10000, and where printing a whole second by RFC 3339 and
  -- parsing it again gives it back.
  pub off_hours_log_fires :
      (r : OffHoursAccessRule) (at : Moment) (t : ℕ)
      → ((n : ℕ)
          → n < 315537897600
          → rt.parse_rfc3339 (format (pos (n * 1000000000))) ≡ some (pos (n * 1000000000)))
      → r.loc ≡ utc
      → r.cfg.sensitive_paths ≡ sensitive_paths
      → pos 4 ≤ℤ r.cfg.business_hours_start
      → t + 14400000000000 < 315537897600 * 1000000000
      → Always
          (off_hours_log rnd format (pos t))
          (λ m. is_some (evaluate_off_hours r (received rt raw input m) at) ≡ true)
  unfolding off_hours_log lookup text_eq
  off_hours_log_fires r at t times zone same late lt = intn_then rnd _ 2 _ (omega arith) (λ h lh.
      intn_then rnd _ 60 _ (omega arith) (λ m lm.
        let clock : hour_in r.loc
              (time_or_now (rt.parse_rfc3339 (format (off_hour (pos t) h m))) input.now)
            ≡ 2 + h =
          ap₂ hour_in zone
            (read_time rt format input.now t h m times (night_time_lt t h m 315537897600 lh lm lt))
          ∙ hour_in-utc (night_time t h m)
          ∙ hour_of-night_time t h m lh lm in
        pick_where rnd IsSensitive _ sensitive_paths _ (omega arith) All-IsSensitive
          (λ path sensitive. pick_then rnd _ services _ (omega arith) (λ service.
            intn_then rnd _ 100 _ (omega arith)
              (λ n ln s. fires r _ at path (2 + h) refl same sensitive clock (omega arith))))))
