-- ===== src/Tools/Message.antt =====
-- logMsg, which the three tools declare alike, and what the server's parser is given of one.
-- The printing of a time by the layout time.RFC3339 is a parameter of what uses it.
use log_analytics_and_anomal.Prelude.{List, [], ◌∷◌, ◌++◌, Text, text, drop, if◌then◌else◌}
use log_analytics_and_anomal.Domain.{Value, float64, int, int64}
use log_analytics_and_anomal.Runtime.{has_prefix, float_of_int}
use log_analytics_and_anomal.Pipeline.{Structured}

pub record LogMsg : Type 0 where
  pub timestamp : Text
  pub level : Text
  pub service : Text
  pub message : Text
  pub fields : List (Text × Value)

-- fmt.Sprintf(template, s), for a template with no verb but %s and at most one of it: a string that
-- no verb takes is printed behind the template.
unfoldable pub sprintf : Text → Text → Text
unfolding has_prefix
sprintf [] s = text "%!(EXTRA string=" ++ s ++ text ")"
sprintf (c ∷ template) s =
    if has_prefix (c ∷ template) (text "%s") then s ++ drop 1 template else c ∷ sprintf template s

-- What json.Unmarshal makes, in an any, of what json.Marshal makes of a value: each number is a
-- float64.
abbrev wire_value : Value → Value
wire_value (int n) = float64 (float_of_int n)
wire_value (int64 n) = float64 (float_of_int n)
wire_value v = v

abbrev pub wire_fields : List (Text × Value) → List (Text × Value)
wire_fields [] = []
wire_fields ((k, v) ∷ rest) = (k, wire_value v) ∷ wire_fields rest

-- A message with flat fields, as the parser's struct receives it.
abbrev pub structured_of : LogMsg → Structured
structured_of m = record {
  timestamp = m.timestamp;
  level = m.level;
  service = m.service;
  message = m.message;
  fields = wire_fields m.fields;
}
