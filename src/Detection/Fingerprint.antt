-- ===== src/Detection/Fingerprint.antt =====
-- `fingerprint` of internal/detection/repeated_failure.go. The regular expression
-- \b[\da-fA-F]{4,}\b|\b\d+\b matches exactly the whole words (the longest stretches of the bytes
-- 0-9, A-Z, a-z and _) that consist of at least four hexadecimal digits or of decimal digits: both
-- ends of a match are word boundaries, so it cannot stop inside a word.
use mathlib.Core.List.{map-append}
use log_analytics_and_anomal.Prelude.{
  ℕ, Bool, true, false, ◌&&◌, ◌||◌, [], ◌∷◌, ◌++◌, Text, text, if◌then◌else◌, leb, ◌==◌, length,
  ◌≡◌, refl, sym, ap, ◌∙◌, append_assoc, append-nil, arith,
}
use log_analytics_and_anomal.Runtime.{Runtime, in_range, to_lower, lower}

unfoldable pub is_digit : ℕ → Bool
is_digit c = in_range b'0' b'9' c

unfoldable is_hex : ℕ → Bool
unfolding is_digit
is_hex c = is_digit c || in_range b'a' b'f' c || in_range b'A' b'F' c

unfoldable pub is_word : ℕ → Bool
unfolding is_digit
is_word c = is_digit c || in_range b'a' b'z' c || in_range b'A' b'Z' c || (c == b'_')

abbrev all : (ℕ → Bool) → Text → Bool
all p [] = true
all p (c ∷ s) = p c && all p s

-- Does the expression match this word?
unfoldable is_noise : Text → Bool
unfolding is_hex
is_noise word =
    (all is_hex word && leb 4 (length word)) || (all is_digit word && leb 1 (length word))

-- The end of a word: the word itself or its replacement.
unfoldable flush : Text → Text
unfolding is_noise
flush word = if is_noise word then text "X" else word

-- `word` is the part of the current word that has been read.
unfoldable scrub : Text → Text → Text
scrub word [] = flush word
scrub word (c ∷ s) = elim (is_word c) [
  | true ↦ scrub (word ++ c ∷ []) s
  | false ↦ flush word ++ c ∷ scrub [] s
]

unfoldable pub fingerprint : Runtime → Text → Text
unfolding scrub is_word flush
fingerprint rt msg = scrub [] (to_lower rt msg)

-- A byte between words separates what happens on its two sides.
scrub-append :
    (word s : Text) (c : ℕ) (rest : Text)
    → is_word c ≡ false
    → scrub word (s ++ c ∷ rest) ≡ scrub word s ++ c ∷ scrub [] rest
unfolding scrub
scrub-append word [] c rest h = ground arith
scrub-append word (d ∷ s) c rest h = ground (
  arith,
  scrub-append (word ++ d ∷ []) s c rest h,
  scrub-append [] s c rest h,
  append_assoc (flush word) (d ∷ scrub [] s) (c ∷ scrub [] rest),
)

digits-scrub : (word s : Text) → all is_digit s ≡ true → scrub word s ≡ flush (word ++ s)
unfolding scrub is_word
digits-scrub word [] h = rw (append-nil word)
digits-scrub word (d ∷ s) h =
    ground (arith, digits-scrub (word ++ d ∷ []) s, append_assoc word (d ∷ []) s)

digits-lower : (rt : Runtime) (s : Text) → all is_digit s ≡ true → to_lower rt s ≡ s
unfolding is_digit lower
digits-lower rt [] h = refl
digits-lower rt (d ∷ s) h = ground (arith, digits-lower rt s)

digits-noise : (d : ℕ) (s : Text) → all is_digit (d ∷ s) ≡ true → flush (d ∷ s) ≡ text "X"
unfolding flush
digits-noise d s h = ground arith

fingerprint-number :
    (rt : Runtime) (pre : Text) (a : ℕ) (d : ℕ) (digits : Text) (b : ℕ) (rest : Text)
    → is_word (lower rt a) ≡ false
    → is_word (lower rt b) ≡ false
    → all is_digit (d ∷ digits) ≡ true
    → fingerprint rt (pre ++ a ∷ ((d ∷ digits) ++ b ∷ rest))
      ≡ fingerprint rt pre ++ lower rt a ∷ b'X' ∷ lower rt b ∷ fingerprint rt rest
unfolding fingerprint
fingerprint-number rt pre a d digits b rest ha hb h =
    ap (scrub []) (
      map-append (lower rt) pre (a ∷ ((d ∷ digits) ++ b ∷ rest))
      ∙ ap (λ s. to_lower rt pre ++ lower rt a ∷ s)
          (map-append (lower rt) (d ∷ digits) (b ∷ rest)
            ∙ ap (λ s. s ++ lower rt b ∷ to_lower rt rest) (digits-lower rt (d ∷ digits) h)))
    ∙ scrub-append [] (to_lower rt pre) (lower rt a) _ ha
    ∙ ap (λ s. scrub [] (to_lower rt pre) ++ lower rt a ∷ s)
        (scrub-append [] (d ∷ digits) (lower rt b) (to_lower rt rest) hb
          ∙ ap (λ s. s ++ lower rt b ∷ scrub [] (to_lower rt rest))
              (digits-scrub [] (d ∷ digits) h ∙ digits-noise d digits h))

-- A number that stands between two bytes that are no part of a word does not show in the
-- fingerprint: any two messages that differ only in it have the same one.
pub fingerprint_forgets_number :
    (rt : Runtime) (pre : Text) (a : ℕ) (d : ℕ) (digits : Text) (e : ℕ) (others : Text) (b : ℕ)
    (rest : Text)
    → is_word (lower rt a) ≡ false
    → is_word (lower rt b) ≡ false
    → all is_digit (d ∷ digits) ≡ true
    → all is_digit (e ∷ others) ≡ true
    → fingerprint rt (pre ++ a ∷ ((d ∷ digits) ++ b ∷ rest))
      ≡ fingerprint rt (pre ++ a ∷ ((e ∷ others) ++ b ∷ rest))
fingerprint_forgets_number rt pre a d digits e others b rest ha hb h k =
    fingerprint-number rt pre a d digits b rest ha hb h
    ∙ sym (fingerprint-number rt pre a e others b rest ha hb k)
