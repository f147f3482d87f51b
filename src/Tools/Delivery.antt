-- ===== src/Tools/Delivery.antt =====
-- The messages of the tools, as the server's parser receives them.
use log_analytics_and_anomal.Prelude.{
  ℕ, ◌≡◌, refl, sym, subst, ap, ◌∙◌, ◌⊎◌, inl, inr, true, false, List, Option, none, some, Text,
  text, text_eq,
}
use log_analytics_and_anomal.Domain.{RawMessage, LogEntry}
use log_analytics_and_anomal.Runtime.{Runtime, trim_space, upper}
use log_analytics_and_anomal.Pipeline.{
  Structured, Input, parse, plain_entry, structured_entry, time_or_now, normalise_level, level_of,
  one_of,
}
use log_analytics_and_anomal.Tools.Message.{LogMsg, structured_of, wire_fields}

-- The levels that the generators write.
abbrev pub IsWritten : Text → Type 0
IsWritten level =
    (level ≡ text "info") ⊎ (level ≡ text "debug") ⊎ (level ≡ text "warn") ⊎ (level ≡ text "error")

abbrev pub IsKnown : LogMsg → Type 0
IsKnown m = IsWritten m.level

-- The entry that a worker makes of a message that was read at `input` from the record `raw`.
abbrev pub received : Runtime → RawMessage → Input → LogMsg → LogEntry
received rt raw input m = record {
  id = input.uuid;
  timestamp = time_or_now (rt.parse_rfc3339 m.timestamp) input.now;
  level = m.level;
  service = m.service;
  message = m.message;
  fields = wire_fields m.fields;
  raw_source = rt.text_of raw.payload;
  source = raw;
}

module _ (rt : Runtime) where
  abbrev Keeps : Text → Type 0
  Keeps level = normalise_level rt level ≡ level

  info-Keeps : Keeps (text "info")
  unfolding normalise_level level_of one_of trim_space upper text_eq
  info-Keeps = refl

  debug-Keeps : Keeps (text "debug")
  unfolding normalise_level level_of one_of trim_space upper text_eq
  debug-Keeps = refl

  warn-Keeps : Keeps (text "warn")
  unfolding normalise_level level_of one_of trim_space upper text_eq
  warn-Keeps = refl

  error-Keeps : Keeps (text "error")
  unfolding normalise_level level_of one_of trim_space upper text_eq
  error-Keeps = refl

  normalise_level-written : (level : Text) → IsWritten level → Keeps level
  normalise_level-written level (inl e) = subst Keeps (sym e) info-Keeps
  normalise_level-written level (inr (inl e)) = subst Keeps (sym e) debug-Keeps
  normalise_level-written level (inr (inr (inl e))) = subst Keeps (sym e) warn-Keeps
  normalise_level-written level (inr (inr (inr e))) = subst Keeps (sym e) error-Keeps

  -- A message of a level that the generators write, on a payload that decodes to it with each number
  -- as a float64, is parsed without an error, to an entry with its own level, service, message and
  -- fields and the time that its timestamp names (the clock's, if that is no RFC 3339 time).
  parse-received :
      (unmarshal : List ℕ → Option Structured) (raw : RawMessage) (input : Input) (m : LogMsg)
      → IsWritten m.level
      → unmarshal raw.payload ≡ some (structured_of m)
      → parse rt unmarshal raw input ≡ (received rt raw input m, false)
  unfolding parse
  parse-received unmarshal raw input m known decoded =
      ap
        (λ r. elim r [
          | none ↦ (plain_entry rt raw input, true)
          | some s ↦ (structured_entry rt raw input s, false)
        ])
        decoded
      ∙ ap (λ level. (record (received rt raw input m) { level = level }, false))
          (normalise_level-written m.level known)
