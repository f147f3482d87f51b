-- ===== src/Api/Params.antt =====
-- parseIntParam and parseTimeParam of internal/api/logs.go.
use log_analytics_and_anomal.Prelude.{
  List, [], ◌++◌, Option, none, some, Text, text_key, text, text_eq, ℤ, ltb_ℤ, if◌then◌else◌, ◌≤ℤ◌,
  ◌≡◌, refl, arith,
}
use log_analytics_and_anomal.Assoc.{lookup}
use log_analytics_and_anomal.Domain.{Time, zero_time}
use log_analytics_and_anomal.Runtime.{Runtime, atoi}

-- A parameter that was accepted, or refused with the text of a Go error.
pub data Checked {ℓ} (A : Type ℓ) : Type ℓ where
  refused : Text → Checked A
  accepted : A → Checked A

infixl 5 ◌>>=◌
abbrev pub ◌>>=◌ {ℓ κ} : {A : Type ℓ} {B : Type κ} → Checked A → (A → Checked B) → Checked B
refused message >>= use_it = refused message
accepted a >>= use_it = use_it a

-- url.Values: the decoded parameters in order.
abbrev pub Query : Type 0
Query = List (Text × Text)

abbrev or_empty : Option Text → Text
or_empty none = []
or_empty (some s) = s

-- r.URL.Query().Get(name)
abbrev pub get : Query → Text → Text
get q name = or_empty (lookup name q)

abbrev clamp : ℤ → ℤ → ℤ → ℤ
clamp lo hi v = let v' = if ltb_ℤ v lo then lo else v in if ltb_ℤ hi v' then hi else v'

abbrev clamped : Text → ℤ → ℤ → Option ℤ → Checked ℤ
clamped name lo hi none = refused (name ++ text ": not an integer")
clamped name lo hi (some v) = accepted (clamp lo hi v)

unfoldable pub parse_int_param : Query → Text → ℤ → ℤ → ℤ → Checked ℤ
parse_int_param q name default lo hi =
    if text_eq (get q name) [] then accepted default else clamped name lo hi (atoi (get q name))

abbrev parsed : Text → Option Time → Checked Time
parsed name none = refused (name ++ text ": must be RFC 3339 format")
parsed name (some t) = accepted t

unfoldable pub parse_time_param : Runtime → Query → Text → Checked Time
parse_time_param rt q name =
    if text_eq (get q name) []
    then accepted zero_time
    else parsed name (rt.parse_rfc3339 (get q name))

-- What parse_int_param returns lies in the range, if the default does.
pub parse_int_param_bounds :
    (q : Query) (name : Text) (default lo hi : ℤ) {v : ℤ}
    → lo ≤ℤ default
    → default ≤ℤ hi
    → parse_int_param q name default lo hi ≡ accepted v
    → (lo ≤ℤ v) × (v ≤ℤ hi)
unfolding parse_int_param
parse_int_param_bounds q name default lo hi a b h = ground arith

-- A chain that succeeds succeeds in its first step.
pub >>=-eq-accepted {ℓ κ} :
    {A : Type ℓ} {B : Type κ} (m : Checked A) (f : A → Checked B) {b : B}
    → (m >>= f) ≡ accepted b
    → (a : A) × (m ≡ accepted a) × (f a ≡ accepted b)
>>=-eq-accepted (accepted a) f h = (a, refl, h)
>>=-eq-accepted (refused e) f h = cc
