-- ===== src/Domain.antt =====
-- internal/domain: the values that pass between the components.
-- An instant (time.Time) is the integer of nanoseconds since Go's zero time, January 1 of year 1
-- UTC, and a duration (time.Duration) an integer of nanoseconds; the location that a time.Time also
-- carries only matters for its printing. A text is the list of its code points.
use log_analytics_and_anomal.Prelude.{ℕ, Bool, List, Option, none, some, ℤ, pos, ◌-ℤ◌, ltb_ℤ, Text}

abbrev pub Time : Type 0
Time = ℤ

abbrev pub Duration : Type 0
Duration = ℤ

abbrev pub zero_time : Time
zero_time = pos 0

-- t.After(u), t.Before(u)
abbrev pub after : Time → Time → Bool
after t u = ltb_ℤ u t

abbrev pub before : Time → Time → Bool
before t u = ltb_ℤ t u

-- `time.Now().Add(-d)`, with the reading of the clock.
abbrev pub cutoff_at : Time → Duration → Time
cutoff_at now d = now -ℤ d

-- A float64: a finite one is the first number times two to the second.
pub data Float64 : Type 0 where
  finite : ℤ → ℤ → Float64
  pos_inf neg_inf nan : Float64

-- The values of a map[string]any: those that encoding/json makes, and the ints that code can put in.
mutual
  pub data Value : Type 0 where
    null : Value
    bool : Bool → Value
    float64 : Float64 → Value
    string : Text → Value
    int int64 : ℤ → Value
    array : Values → Value
    object : Members → Value

  pub data Values : Type 0 where
    nil : Values
    cons : Value → Values → Values

  pub data Members : Type 0 where
    end : Members
    member : Text → Value → Members → Members

-- `s, ok := v.(string)`, where the key is present.
abbrev pub string_in : Option Value → Option Text
string_in (some (string s)) = some s
string_in _ = none

pub record RawMessage : Type 0 where
  pub payload : List ℕ
  pub topic : Text
  pub partition : ℤ
  pub offset : ℤ
  pub timestamp : Time

-- `fields` is empty for a nil map: the code reads it only by key.
pub record LogEntry : Type 0 where
  pub id : Text
  pub timestamp : Time
  pub level : Text
  pub service : Text
  pub message : Text
  pub fields : List (Text × Value)
  pub raw_source : Text
  pub source : RawMessage

-- What each rule gives to fmt.Sprintf, in place of the text that comes out. The elapsed time of
-- `silence` stands there before it is rounded to a second.
pub data Description : Type 0 where
  error_rate_spike : ℕ → Duration → Text → Description
  latency_breach : ℕ → ℕ → ℤ → Duration → Description
  repeated_failures : Text → ℕ → Duration → Text → Description
  auth_failures : ℕ → Text → Duration → Description
  off_hours : Text → ℕ → Text → Description
  silence : Text → Duration → Duration → Description

pub record Anomaly : Type 0 where
  pub id : Text
  pub rule_id : Text
  pub severity : Text
  pub service : Text
  pub description : Description
  pub evidence : List LogEntry
  pub detected_at : Time

pub record LogQuery : Type 0 where
  pub service : Text
  pub level : Text
  pub from : Time
  pub to : Time
  pub page : ℤ
  pub size : ℤ

pub record AnomalyQuery : Type 0 where
  pub rule_type : Text
  pub service : Text
  pub severity : Text
  pub from : Time
  pub to : Time
  pub page : ℤ
  pub size : ℤ
