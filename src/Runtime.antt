-- ===== src/Runtime.antt =====
-- What the components use of Go's standard library: strings, floats, zones. The parts that are
-- tables or databases of that library are the fields of `Runtime`, arguments of what uses them.
pub mod Floats
pub mod Rounding
pub mod Nearest
use log_analytics_and_anomal.Prelude.{
  ℕ, zero, suc, ◌+◌, ◌-◌, ◌*◌, ◌/◌, ◌%◌, ◌^◌, Bool, true, false, ◌&&◌, ◌||◌, List, [], ◌∷◌, map,
  Option, none, some, ℤ, pos, negsuc, ◌+ℤ◌, ◌*ℤ◌, leb_ℤ, pos_part, neg_part, Text, if◌then◌else◌,
  ltb, leb, ◌==◌,
}
use log_analytics_and_anomal.Domain.{Time, Float64, finite, pos_inf, neg_inf, nan}

-- *time.Location: the nanoseconds that local time is ahead of UTC, at each instant.
pub record Location : Type 0 where
  pub ahead : Time → ℤ

pub record Runtime : Type 0 where
  -- strconv.ParseFloat(s, 64); none is an error
  pub parse_float : Text → Option Float64
  -- unicode.ToLower and unicode.ToUpper beyond ASCII
  pub unicode_lower : ℕ → ℕ
  pub unicode_upper : ℕ → ℕ
  -- time.LoadLocation
  pub load_location : Text → Option Location
  -- time.Parse(time.RFC3339, s)
  pub parse_rfc3339 : Text → Option Time
  -- string(b): the characters that the bytes encode in UTF-8
  pub text_of : List ℕ → Text

abbrev pub utc : Location
utc = record { ahead = λ t. pos 0 }

-- t.In(loc).Hour(); the zero time is a midnight, and a negative instant lies before it.
unfoldable pub hour_of : ℤ → ℕ
hour_of (pos n) = (n / 3600000000000) % 24
hour_of (negsuc n) = 23 - (n / 3600000000000) % 24

abbrev pub hour_in : Location → Time → ℕ
hour_in loc t = hour_of (t +ℤ loc.ahead t)

-- strings.HasPrefix, strings.Contains
unfoldable pub has_prefix : Text → Text → Bool
has_prefix s [] = true
has_prefix [] (c ∷ p) = false
has_prefix (d ∷ s) (c ∷ p) = (d == c) && has_prefix s p

unfoldable pub contains : Text → Text → Bool
unfolding has_prefix
contains [] sub = has_prefix [] sub
contains (c ∷ s) sub = has_prefix (c ∷ s) sub || contains s sub

abbrev pub in_range : ℕ → ℕ → ℕ → Bool
in_range lo hi c = leb lo c && leb c hi

-- strings.ToLower, strings.ToUpper
unfoldable pub lower : Runtime → ℕ → ℕ
lower rt c = if ltb c 128 then (if in_range b'A' b'Z' c then c + 32 else c) else rt.unicode_lower c

unfoldable pub upper : Runtime → ℕ → ℕ
upper rt c = if ltb c 128 then (if in_range b'a' b'z' c then c - 32 else c) else rt.unicode_upper c

abbrev pub to_lower : Runtime → Text → Text
to_lower rt = map (lower rt)

abbrev pub to_upper : Runtime → Text → Text
to_upper rt = map (upper rt)

-- unicode.IsSpace
unfoldable is_space : ℕ → Bool
is_space c =
    in_range 9 13 c
    || (c == 32)
    || (c == 0x85)
    || (c == 0xA0)
    || (c == 0x1680)
    || in_range 0x2000 0x200A c
    || (c == 0x2028)
    || (c == 0x2029)
    || (c == 0x202F)
    || (c == 0x205F)
    || (c == 0x3000)

unfoldable trim_left : Text → Text
unfolding is_space
trim_left [] = []
trim_left (c ∷ s) = if is_space c then trim_left s else c ∷ s

-- A space stays only if something that is none follows it.
keep_unless_trailing : ℕ → Text → Text
unfolding is_space
keep_unless_trailing c [] = if is_space c then [] else c ∷ []
keep_unless_trailing c (d ∷ s) = c ∷ d ∷ s

unfoldable trim_right : Text → Text
unfolding keep_unless_trailing
trim_right [] = []
trim_right (c ∷ s) = keep_unless_trailing c (trim_right s)

-- strings.TrimSpace
unfoldable pub trim_space : Text → Text
unfolding trim_left trim_right
trim_space s = trim_right (trim_left s)

-- float64(n): the nearest float, to even on a tie. The shift leaves at most 53 bits; an int has 64.
unfoldable pub shift_for : ℕ → ℕ → ℕ
shift_for zero a = 0
shift_for (suc fuel) a = if ltb a (2 ^ 53) then 0 else suc (shift_for fuel (a / 2))

unfoldable pub round_shift : ℕ → ℕ → ℕ
round_shift zero a = a
round_shift (suc s) a =
    let q = a / 2 ^ suc s in
    let r = a % 2 ^ suc s in if ltb (2 ^ s) r || ((r == 2 ^ s) && (q % 2 == 1)) then q + 1 else q

abbrev pub with_sign : ℤ → ℕ → ℤ
with_sign (pos n) m = pos m
with_sign (negsuc n) zero = pos 0
with_sign (negsuc n) (suc m) = negsuc m

unfoldable pub float_of_int : ℤ → Float64
unfolding shift_for round_shift
float_of_int n =
    let a = pos_part n + neg_part n in
    let s = shift_for 64 a in finite (with_sign n (round_shift s a)) (pos s)

-- a >= b on floats; with a NaN it is false.
unfoldable pub float_ge : Float64 → Float64 → Bool
float_ge nan _ = false
float_ge (finite m e) nan = false
float_ge (finite m e) pos_inf = false
float_ge (finite m e) neg_inf = true
float_ge (finite m e) (finite n f) =
    leb_ℤ (n *ℤ pos (2 ^ (pos_part f + neg_part e))) (m *ℤ pos (2 ^ (pos_part e + neg_part f)))
float_ge pos_inf nan = false
float_ge pos_inf _ = true
float_ge neg_inf neg_inf = true
float_ge neg_inf _ = false

-- strconv.Atoi
unfoldable pub digits_value : ℕ → Text → Option ℕ
digits_value acc [] = some acc
digits_value acc (c ∷ s) =
    if in_range b'0' b'9' c then digits_value (acc * 10 + (c - b'0')) s else none

unsigned : Text → Option ℕ
unfolding digits_value
unsigned [] = none
unsigned (c ∷ s) = digits_value 0 (c ∷ s)

abbrev minus : ℕ → ℤ
minus zero = pos 0
minus (suc n) = negsuc n

-- Within int64: up to 2 ^ 63 - 1, and down to its negative less one.
abbrev positive_in_range : Option ℕ → Option ℤ
positive_in_range none = none
positive_in_range (some n) = if ltb n (2 ^ 63) then some (pos n) else none

abbrev negative_in_range : Option ℕ → Option ℤ
negative_in_range none = none
negative_in_range (some n) = if leb n (2 ^ 63) then some (minus n) else none

unfoldable pub atoi : Text → Option ℤ
unfolding unsigned
atoi [] = none
atoi (c ∷ s) =
    if c == b'-'
    then negative_in_range (unsigned s)
    else if c == b'+'
    then positive_in_range (unsigned s)
    else positive_in_range (unsigned (c ∷ s))
