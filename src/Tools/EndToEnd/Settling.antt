-- ===== src/Tools/EndToEnd/Settling.antt =====
-- When the wait of cmd/e2etest/main.go ends: the counter of stable readings and the float comparison
-- against the readings themselves and whole numbers.
use log_analytics_and_anomal.Prelude.{
  ℕ, suc, ◌*◌, ◌^◌, ◌≤◌, ◌<◌, ◌≡◌, refl, ap, ap₂, ◌∙◌, inl, inr, Bool, true, false, ◌&&◌, ◌||◌,
  List, [], ◌∷◌, ◌++◌, Option, none, some, ℤ, pos, negsuc, if◌then◌else◌, leb, leb_ℤ, ◌==◌, arith,
  Bool-cases,
}
use log_analytics_and_anomal.Tools.EndToEnd.Drain.{
  Poll, expired, interrupted, failed, counted, settled, drain, is_drained, runs_after,
}
use log_analytics_and_anomal.Tools.EndToEnd.Shares.{most_of_exact}

-- A poll that does not end the loop from outside: an error, or a count, which is never negative.
abbrev IsQuiet : Poll → Type 0
IsQuiet expired = ⊥
IsQuiet interrupted = ⊥
IsQuiet failed = Unit {0}
IsQuiet (counted (pos c)) = Unit {0}
IsQuiet (counted (negsuc c)) = ⊥

abbrev pub AllQuiet : List Poll → Type 0
AllQuiet [] = Unit {0}
AllQuiet (p ∷ ps) = IsQuiet p × AllQuiet ps

abbrev pub readings : List Poll → List ℕ
readings [] = []
readings (counted (pos c) ∷ ps) = c ∷ readings ps
readings (p ∷ ps) = readings ps

-- A reading that the three before it, latest first, are equal to.
abbrev pub steady : ℕ → List ℕ → Bool
steady c (x ∷ y ∷ z ∷ older) = (c == x) && (c == y) && (c == z)
steady c _ = false

abbrev pub stops : ℕ → List ℕ → ℕ → Bool
stops total past c = leb total c || (steady c past && leb (9 * total) (10 * c))

-- The first reading that reaches the total, or is the fourth of a row of equal ones and nine tenths of
-- the total at least.
unfoldable pub first_stop : ℕ → List ℕ → List ℕ → Option ℕ
first_stop total past [] = none
first_stop total past (c ∷ later) =
    let rest = first_stop total (c ∷ past) later in if stops total past c then some c else rest

abbrev run_length : ℕ → List ℕ → ℕ
run_length c [] = 0
run_length c (p ∷ older) = let rest = run_length c older in if c == p then suc rest else 0

-- The loop's variables after the readings `past`.
abbrev Tracks : List ℕ → ℕ → ℤ → Type 0
Tracks [] stable prev = (stable ≡ 0) × (prev ≡ negsuc 0)
Tracks (p ∷ older) stable prev = (stable ≡ run_length p older) × (prev ≡ pos p)

runs_after-same :
    (c p : ℕ) (older : List ℕ)
    → runs_after (pos c) (pos p) (run_length p older) ≡ run_length c (p ∷ older)
runs_after-same c p older = elim (Bool-cases (c == p)) [
  | inl e ↦ let eq : c ≡ p = ground (arith, e) in ground (arith, e, ap (λ x. run_length x older) eq)
  | inr e ↦ ground (arith, e)
]

runs_after-Tracks :
    (past : List ℕ) (stable : ℕ) (prev : ℤ) (c : ℕ)
    → Tracks past stable prev
    → runs_after (pos c) prev stable ≡ run_length c past
runs_after-Tracks [] stable prev c (s, p) = rw (s, p) (ground arith)
runs_after-Tracks (q ∷ older) stable prev c (s, p) = rw (s, p) (runs_after-same c q older)

steady_lem : (c : ℕ) (past : List ℕ) → leb 3 (run_length c past) ≡ steady c past
steady_lem c [] = ground arith
steady_lem c (x ∷ []) = ground arith
steady_lem c (x ∷ y ∷ []) = ground arith
steady_lem c (x ∷ y ∷ z ∷ older) = ground arith

is_drained-stops :
    (total c : ℕ) (past : List ℕ)
    → total < 2 ^ 47
    → is_drained (pos total) (pos c) (run_length c past) ≡ stops total past c
unfolding is_drained
is_drained-stops total c past h = elim (Bool-cases (leb total c)) [
  | inl e ↦ ground (arith, e)
  | inr e ↦
      let small : c < 2 ^ 53 = ground (arith, e, h) in
      let same : leb_ℤ (pos total) (pos c) ≡ leb total c = ground arith in
      ap₂ ◌||◌ same (ap₂ ◌&&◌ (steady_lem c past) (most_of_exact total c h small))
]

Tracks-step :
    (past : List ℕ) (stable : ℕ) (prev : ℤ) (c : ℕ)
    → Tracks past stable prev
    → Tracks (c ∷ past) (runs_after (pos c) prev stable) (pos c)
Tracks-step past stable prev c t = (runs_after-Tracks past stable prev c t, refl)

settles_from :
    (total : ℕ) (before : List Poll) (c : ℕ) (after : List Poll) (past : List ℕ) (stable : ℕ)
    (prev : ℤ)
    → total < 2 ^ 47
    → AllQuiet before
    → total ≤ c
    → Tracks past stable prev
    → (cur : ℕ) × (first_stop total past (readings before ++ c ∷ []) ≡ some cur)
      × (drain (pos total) (before ++ counted (pos c) ∷ after) stable prev ≡ settled (pos cur))
unfolding drain first_stop
settles_from total [] c after past stable prev h quiet le t =
    let full : stops total past c ≡ true = ground arith in
    let same = is_drained-stops total c past h in
    (c, rw full refl, rw (runs_after-Tracks past stable prev c t, same, full) refl)
settles_from total (expired ∷ before) c after past stable prev h quiet le t = absurd quiet.0
settles_from total (interrupted ∷ before) c after past stable prev h quiet le t = absurd quiet.0
settles_from total (failed ∷ before) c after past stable prev h quiet le t =
    settles_from total before c after past stable prev h quiet.1 le t
settles_from total (counted (negsuc d) ∷ before) c after past stable prev h quiet le t =
    absurd quiet.0
settles_from total (counted (pos d) ∷ before) c after past stable prev h quiet le t =
    let runs = runs_after (pos d) prev stable in
    let track : runs ≡ run_length d past = runs_after-Tracks past stable prev d t in
    let same : is_drained (pos total) (pos d) runs ≡ stops total past d =
      ap (is_drained (pos total) (pos d)) track ∙ is_drained-stops total d past h in
    let (cur, spec, code) =
      settles_from total before c after (d ∷ past) runs (pos d) h quiet.1 le
        (Tracks-step past stable prev d t) in
    elim (Bool-cases (stops total past d)) [
      | inl e ↦ (d, rw e refl, rw (same ∙ e) refl)
      | inr e ↦ (cur, rw (e, spec) refl, rw (same ∙ e, code) refl)
    ]

-- Where fewer than 2^47 messages were sent, no poll before a count that reaches their number is the
-- deadline's or an interruption's, and no count before it is negative, the wait ends with a count, by
-- then at the latest: the first one that reaches the number sent, or that is at least nine tenths of
-- it and equal to the three counts before it. Polls that failed do not matter, nor what would follow.
pub drain_settles :
    (total : ℕ) (before : List Poll) (c : ℕ) (after : List Poll)
    → total < 2 ^ 47
    → AllQuiet before
    → total ≤ c
    → (cur : ℕ) × (first_stop total [] (readings before ++ c ∷ []) ≡ some cur)
      × (drain (pos total) (before ++ counted (pos c) ∷ after) 0 (negsuc 0) ≡ settled (pos cur))
drain_settles total before c after h quiet le =
    settles_from total before c after [] 0 (negsuc 0) h quiet le (refl, refl)
