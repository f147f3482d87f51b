-- ===== src/Elasticsearch/Documents/Ids.antt =====
-- The document IDs of IndexLog.
use log_analytics_and_anomal.Prelude.{
  ℕ, zero, suc, ◌+◌, ◌/◌, ◌%◌, ◌<◌, ◌≡◌, ◌≢◌, ◌⊎◌, inl, inr, refl, sym, ap, ◌∙◌, Bool, true, ◌&&◌,
  not, ◌==◌, [], ◌∷◌, ◌++◌, some, Text, text_eq, text_eq_iff, ℤ, pos, negsuc, arith, Bool-cases,
}
use log_analytics_and_anomal.Domain.{LogEntry, RawMessage}
use log_analytics_and_anomal.Runtime.{digits_value}
use log_analytics_and_anomal.Elasticsearch.Documents.{
  Encoding, BulkItem, decimal_loop, decimal, document_key, index_log,
}

digits_value-decimal_loop :
    (rounds n : ℕ) (rest : Text)
    → n < rounds
    → digits_value 0 (decimal_loop rounds n rest) ≡ digits_value n rest
unfolding digits_value decimal_loop
digits_value-decimal_loop zero n rest h = absurd (omega arith)
digits_value-decimal_loop (suc rounds) n rest h =
    ground (arith, digits_value-decimal_loop rounds (n / 10) ((b'0' + n % 10) ∷ rest))

-- What the digits of a decimal say.
digits_value-decimal : (n : ℕ) → digits_value 0 (decimal_loop (suc n) n []) ≡ some n
unfolding digits_value
digits_value-decimal n = digits_value-decimal_loop (suc n) n [] (omega arith)

decimal_loop_injective : (m n : ℕ) → decimal_loop (suc m) m [] ≡ decimal_loop (suc n) n [] → m ≡ n
decimal_loop_injective m n h =
    let e : some m ≡ some n =
      sym (digits_value-decimal m) ∙ ap (digits_value 0) h ∙ digits_value-decimal n in
    ground arith

-- A decimal holds no colon, and one of a natural number no minus.
abbrev avoids : ℕ → Text → Bool
avoids c [] = true
avoids c (d ∷ s) = not (d == c) && avoids c s

avoids-decimal_loop :
    (c rounds n : ℕ) (rest : Text)
    → (c < b'0') ⊎ (b'9' < c)
    → avoids c rest ≡ true
    → avoids c (decimal_loop rounds n rest) ≡ true
unfolding decimal_loop
avoids-decimal_loop c zero n rest k h = h
avoids-decimal_loop c (suc rounds) n rest k h =
    ground (arith, avoids-decimal_loop c rounds (n / 10) ((b'0' + n % 10) ∷ rest) k)

avoids-decimal : (z : ℤ) → avoids b':' (decimal z) ≡ true
unfolding decimal
avoids-decimal (pos n) = avoids-decimal_loop b':' (suc n) n [] (inr (omega arith)) refl
avoids-decimal (negsuc n) =
    avoids-decimal_loop b':' (suc (suc n)) (suc n) [] (inr (omega arith)) refl

minus_free : (m : ℕ) (s : Text) → decimal_loop (suc m) m [] ≡ b'-' ∷ s → (A : Type 0) → A
minus_free m s h A =
    let free : avoids b'-' (decimal_loop (suc m) m []) ≡ true =
      avoids-decimal_loop b'-' (suc m) m [] (inl (omega arith)) refl in
    let bad : avoids b'-' (b'-' ∷ s) ≡ true = sym (ap (avoids b'-') h) ∙ free in
    absurd (ground arith)

decimal_injective : (a b : ℤ) → decimal a ≡ decimal b → a ≡ b
unfolding decimal
decimal_injective (pos m) (pos n) h = ap pos (decimal_loop_injective m n h)
decimal_injective (pos m) (negsuc n) h = minus_free m _ h _
decimal_injective (negsuc m) (pos n) h = minus_free n _ (sym h) _
decimal_injective (negsuc m) (negsuc n) h =
    let e : suc m ≡ suc n = decimal_loop_injective (suc m) (suc n) (grind arith) in
    ap negsuc (omega arith)

split_at :
    (c : ℕ) (s t u v : Text)
    → avoids c s ≡ true
    → avoids c t ≡ true
    → (s ++ c ∷ u) ≡ (t ++ c ∷ v)
    → (s ≡ t) × (u ≡ v)
split_at c [] [] u v hs ht h = ground arith
split_at c [] (b ∷ t) u v hs ht h = ground arith
split_at c (a ∷ s) [] u v hs ht h = ground arith
split_at c (a ∷ s) (b ∷ t) u v hs ht h = ground (arith, split_at c s t u v)

document_key_injective :
    (a b : RawMessage)
    → document_key a ≡ document_key b
    → (a.partition ≡ b.partition) × (a.offset ≡ b.offset)
unfolding document_key
document_key_injective a b h =
    let (p, o) =
      split_at b':' (decimal a.partition) (decimal b.partition) (decimal a.offset)
        (decimal b.offset) (avoids-decimal a.partition) (avoids-decimal b.partition) h in
    (decimal_injective a.partition b.partition p, decimal_injective a.offset b.offset o)

-- Two log entries that are indexed under the same document ID come from the same partition and
-- offset, unless SHA-256 gives two different keys the same digest.
pub index_log_ids :
    (enc : Encoding) (a b : LogEntry) {x y : BulkItem}
    → index_log enc a ≡ some x
    → index_log enc b ≡ some y
    → x.document_id ≡ y.document_id
    → ((a.source.partition ≡ b.source.partition) × (a.source.offset ≡ b.source.offset))
      ⊎ ((document_key a.source ≢ document_key b.source)
          × (enc.sha256_hex (document_key a.source) ≡ enc.sha256_hex (document_key b.source)))
unfolding index_log
index_log_ids enc a b {x} {y} ha hb same =
    let digests : enc.sha256_hex (document_key a.source) ≡ enc.sha256_hex (document_key b.source) =
      ground arith in
    elim (Bool-cases (text_eq (document_key a.source) (document_key b.source))) [
      | inl e ↦ inl (
          document_key_injective a.source b.source
            ((text_eq_iff (document_key a.source) (document_key b.source)).0 e))
      | inr ne ↦ inr (
        λ e. ground (arith, text_eq_iff (document_key a.source) (document_key b.source), e),
        digests,
      )
    ]
