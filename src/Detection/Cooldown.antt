-- ===== src/Detection/Cooldown.antt =====
-- The cooldown map of internal/detection/engine.go: which anomalies of a (rule, service) pair are
-- suppressed. Each function is one section under cooldownMu.
pub mod Spacing
use log_analytics_and_anomal.Prelude.{
  Bool, true, false, not, ◌&&◌, List, Option, none, some, Text, text_eq, text_eq_iff, Key, ℤ, pos,
  ◌-ℤ◌, ◌*ℤ◌, wrap64, ltb_ℤ, if◌then◌else◌, ◌≡◌, ◌↔◌, arith,
}
use log_analytics_and_anomal.Assoc.{lookup, insert, retain}
use log_analytics_and_anomal.Domain.{Time, Duration, Anomaly}

pub record CooldownKey : Type 0 where
  pub rule_id : Text
  pub service : Text

abbrev same_key : CooldownKey → CooldownKey → Bool
same_key a b = text_eq a.rule_id b.rule_id && text_eq a.service b.service

pub same_key_iff : (a b : CooldownKey) → (same_key a b ≡ true) ↔ (a ≡ b)
same_key_iff a b = (
  λ h. ground (arith, text_eq_iff a.rule_id b.rule_id, text_eq_iff a.service b.service),
  λ h. ground (arith, text_eq_iff a.rule_id b.rule_id, text_eq_iff a.service b.service),
)

instance abbrev pub cooldown_key : Key CooldownKey
cooldown_key = record { same = same_key; same_iff = same_key_iff }

abbrev pub Cooldowns : Type 0
Cooldowns = List (CooldownKey × Time)

abbrev pub key_of : Anomaly → CooldownKey
key_of a = record { rule_id = a.rule_id; service = a.service }

-- `ok && time.Since(last) < e.cooldownDur`, at a reading of the clock
abbrev pub is_suppressed : Duration → Time → Option Time → Bool
is_suppressed cooldown_dur now none = false
is_suppressed cooldown_dur now (some last) = ltb_ℤ (now -ℤ last) cooldown_dur

-- The section reads the clock once for Since and once more for the stamp that it stores. The answer
-- is whether the anomaly passes.
unfoldable pub admit : Duration → CooldownKey → Time → Time → Cooldowns → Cooldowns × Bool
admit cooldown_dur key now stamp cooldowns =
    if is_suppressed cooldown_dur now (lookup key cooldowns)
    then (cooldowns, false)
    else (insert key stamp cooldowns, true)

-- e.cooldownDur*2, on int64
abbrev pub sweep_after : Duration → Duration
sweep_after cooldown_dur = wrap64 (cooldown_dur *ℤ pos 2)

-- The eviction of old entries; Since reads the clock for each of them.
unfoldable pub sweep : Duration → (CooldownKey → Time) → Cooldowns → Cooldowns
sweep cooldown_dur now =
    retain (λ key last. not (ltb_ℤ (sweep_after cooldown_dur) (now key -ℤ last)))
