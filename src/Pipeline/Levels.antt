-- ===== src/Pipeline/Levels.antt =====
-- NormaliseLevel and Parse of internal/pipeline/parser.go: the levels that come out.
use log_analytics_and_anomal.Prelude.{
  ℕ, suc, ◌≡◌, refl, ◌⊎◌, inl, inr, true, List, [], ◌∷◌, Option, Option-cases, text_eq_iff, none,
  some, Text, text, text_eq, arith, Bool-cases,
}
use log_analytics_and_anomal.Domain.{RawMessage}
use log_analytics_and_anomal.Runtime.{Runtime, trim_space, to_upper, upper}
use log_analytics_and_anomal.Pipeline.{
  one_of, level_of, normalise_level, Structured, Input, parse, process_message, error_words,
  warn_words, info_words, debug_words,
}

abbrev pub levels : List Text
levels = text "error" ∷ text "warn" ∷ text "info" ∷ text "debug" ∷ text "unknown" ∷ []

level_of-one_of : (word : Text) → one_of (level_of word) levels ≡ true
unfolding level_of one_of text_eq
level_of-one_of word = elim (Bool-cases (one_of word error_words)) [
  | inl e ↦ rw e
  | inr ne ↦ rw ne (elim (Bool-cases (one_of word warn_words)) [
    | inl w ↦ rw w
    | inr nw ↦ rw nw (elim (Bool-cases (one_of word info_words)) [
      | inl i ↦ rw i
      | inr ni ↦
          rw ni (elim (Bool-cases (one_of word debug_words)) [ inl d ↦ rw d | inr nd ↦ rw nd ])
    ])
  ])
]

normalise_level-one_of : (rt : Runtime) (raw : Text) → one_of (normalise_level rt raw) levels ≡ true
unfolding normalise_level
normalise_level-one_of rt raw = level_of-one_of (to_upper rt (trim_space raw))

fixed_words :
    (rt : Runtime)
    → (normalise_level rt (text "error") ≡ text "error")
      × (normalise_level rt (text "warn") ≡ text "warn")
      × (normalise_level rt (text "info") ≡ text "info")
      × (normalise_level rt (text "debug") ≡ text "debug")
      × (normalise_level rt (text "unknown") ≡ text "unknown")
unfolding normalise_level upper text_eq
fixed_words rt = (refl, refl, refl, refl, refl)

level_fixed : (rt : Runtime) (s : Text) → one_of s levels ≡ true → normalise_level rt s ≡ s
unfolding one_of
level_fixed rt s h =
    let w = fixed_words rt in
    ground (
      arith,
      text_eq_iff s (text "error"),
      text_eq_iff s (text "warn"),
      text_eq_iff s (text "info"),
      text_eq_iff s (text "debug"),
      text_eq_iff s (text "unknown"),
    )

-- A level that has been normalised is normalised to itself.
normalise_level_idem :
    (rt : Runtime) (raw : Text)
    → normalise_level rt (normalise_level rt raw) ≡ normalise_level rt raw
normalise_level_idem rt raw =
    level_fixed rt (normalise_level rt raw) (normalise_level-one_of rt raw)

-- Every entry that ProcessMessage returns has one of the five levels, the raw message as its source
-- and the payload's text as its raw text. If the payload does not decode, one error is counted, the
-- level is "unknown" and the message is the payload's text; otherwise no error is counted, the level
-- is the decoded one, normalised, and the message is the decoded one.
pub process_message_total :
    (rt : Runtime) (unmarshal : List ℕ → Option Structured) (msg : RawMessage) (input : Input)
    (errors : ℕ)
    → let r = process_message rt unmarshal msg input errors in
      (one_of r.0.level levels ≡ true)
      × (r.0.source ≡ msg)
      × (r.0.raw_source ≡ rt.text_of msg.payload)
      × (((unmarshal msg.payload ≡ none)
            × (r.1 ≡ suc errors)
            × (r.0.level ≡ text "unknown")
            × (r.0.message ≡ rt.text_of msg.payload))
          ⊎ ((s : Structured) × (unmarshal msg.payload ≡ some s)
              × (r.1 ≡ errors)
              × (r.0.level ≡ normalise_level rt s.level)
              × (r.0.message ≡ s.message)))
unfolding process_message one_of text_eq
process_message_total rt unmarshal msg input errors = elim (Option-cases (unmarshal msg.payload)) [
  | inl e ↦ rw (e, parse) (refl, refl, refl, inl (refl, refl, refl, refl))
  | inr (s, e) ↦
      rw (e, parse) (normalise_level-one_of rt s.level, refl, refl, inr (s, refl, refl, refl, refl))
]
