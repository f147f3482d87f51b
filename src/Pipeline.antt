-- ===== src/Pipeline.antt =====
-- internal/pipeline: the parser of raw messages and the step of a worker. encoding/json is a
-- parameter: what Unmarshal makes of a payload, or the error's text.
pub mod Levels
use log_analytics_and_anomal.Prelude.{
  ℕ, suc, Bool, true, false, ◌||◌, List, [], ◌∷◌, Option, none, some, Text, text, text_eq, ℤ,
  if◌then◌else◌,
}
use log_analytics_and_anomal.Domain.{Time, Value, RawMessage, LogEntry}
use log_analytics_and_anomal.Runtime.{Runtime, trim_space, to_upper}

unfoldable pub one_of : Text → List Text → Bool
one_of s [] = false
one_of s (t ∷ ts) = text_eq s t || one_of s ts

abbrev pub error_words : List Text
error_words = text "ERROR" ∷ text "ERR" ∷ text "FATAL" ∷ text "CRITICAL" ∷ text "CRIT" ∷ []

abbrev pub warn_words : List Text
warn_words = text "WARN" ∷ text "WARNING" ∷ []

abbrev pub info_words : List Text
info_words = text "INFO" ∷ text "INFORMATION" ∷ []

abbrev pub debug_words : List Text
debug_words = text "DEBUG" ∷ text "TRACE" ∷ text "VERBOSE" ∷ []

-- The switch, on the word in upper case.
unfoldable pub level_of : Text → Text
unfolding one_of
level_of word =
    if one_of word error_words
    then text "error"
    else if one_of word warn_words
    then text "warn"
    else if one_of word info_words
    then text "info"
    else if one_of word debug_words
    then text "debug"
    else text "unknown"

unfoldable pub normalise_level : Runtime → Text → Text
unfolding level_of trim_space
normalise_level rt raw = level_of (to_upper rt (trim_space raw))

-- The fields of the anonymous struct that Parse decodes into.
pub record Structured : Type 0 where
  pub timestamp : Text
  pub level : Text
  pub service : Text
  pub message : Text
  pub fields : List (Text × Value)

-- What one call reads from outside: a UUID and the clock.
pub record Input : Type 0 where
  pub uuid : Text
  pub now : Time

abbrev pub time_or_now : Option Time → Time → Time
time_or_now none now = now
time_or_now (some t) now = t

abbrev pub plain_entry : Runtime → RawMessage → Input → LogEntry
plain_entry rt msg input = record {
  id = input.uuid;
  timestamp = input.now;
  level = text "unknown";
  service = [];
  message = rt.text_of msg.payload;
  fields = [];
  raw_source = rt.text_of msg.payload;
  source = msg;
}

abbrev pub structured_entry : Runtime → RawMessage → Input → Structured → LogEntry
structured_entry rt msg input s = record {
  id = input.uuid;
  timestamp = time_or_now (rt.parse_rfc3339 s.timestamp) input.now;
  level = normalise_level rt s.level;
  service = s.service;
  message = s.message;
  fields = s.fields;
  raw_source = rt.text_of msg.payload;
  source = msg;
}

-- The entry, and whether there is an error beside it.
unfoldable pub parse : Runtime → (List ℕ → Option Structured) → RawMessage → Input → LogEntry × Bool
parse rt unmarshal msg input = elim (unmarshal msg.payload) [
  | none ↦ (plain_entry rt msg input, true)
  | some s ↦ (structured_entry rt msg input s, false)
]

-- ProcessMessage of worker.go: the entry, and the counter parse_errors_total.
unfoldable pub process_message :
    Runtime → (List ℕ → Option Structured) → RawMessage → Input → ℕ → LogEntry × ℕ
unfolding parse
process_message rt unmarshal msg input parse_errors =
    let r = parse rt unmarshal msg input in (r.0, if r.1 then suc parse_errors else parse_errors)
