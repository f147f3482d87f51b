-- ===== src/Tools/EndToEnd/Sending.antt =====
-- What the replay of cmd/e2etest/main.go sends, and when it ends.
use log_analytics_and_anomal.Prelude.{
  ℕ, zero, suc, ◌+◌, ◌-◌, ◌*◌, ◌<◌, ◌≤◌, ◌≡◌, refl, sym, ap, ◌∙◌, Bool, true, false, List, [], ◌∷◌,
  ◌++◌, map, ℤ, ltb, length, take, drop, replicate, arith, inl, inr, Bool-cases,
}
use native.Mathlib.Nat.{mul-le-mul_left}
use log_analytics_and_anomal.Tools.EndToEnd.Replay.{
  Line, Replay, replay_batch_size, send_batch, replay,
}

take_nil : (n : ℕ) → take {A = Line} n [] ≡ []
take_nil zero = refl
take_nil (suc n) = refl

-- What is taken up to one index, and from there up to a later one.
take_between :
    (n limit : ℕ) (xs : List Line)
    → n ≤ limit
    → take n xs ++ take (limit - n) (drop n xs) ≡ take limit xs
take_between zero limit xs h =
    let whole : limit - 0 ≡ limit = omega arith in ap (λ k. take k xs) whole
take_between (suc n) zero xs h = absurd (omega arith)
take_between (suc n) (suc limit) [] h = take_nil (suc limit - suc n)
take_between (suc n) (suc limit) (x ∷ xs) h =
    let less : suc limit - suc n ≡ limit - n = omega arith in
    ap (λ ys. x ∷ ys)
      (ap (λ k. take n xs ++ take k (drop n xs)) less ∙ take_between n limit xs (omega arith))

map-append : (f : Line → Line) (xs ys : List Line) → map f (xs ++ ys) ≡ map f xs ++ map f ys
map-append f [] ys = refl
map-append f (x ∷ xs) ys = ap (λ zs. f x ∷ zs) (map-append f xs ys)

take_all : (n : ℕ) (xs : List Line) → length xs ≤ n → take n xs ≡ xs
take_all zero [] h = refl
take_all zero (x ∷ xs) h = absurd (omega arith)
take_all (suc n) [] h = refl
take_all (suc n) (x ∷ xs) h = ap (λ ys. x ∷ ys) (take_all n xs (omega arith))

module _ (rebase : Line → Line) (lines : List Line) (batch_size : ℕ) where
  -- What has been sent is what stands before the index.
  pub record IsPrefix (r : Replay) : Type 0 where
    pub within : r.idx ≤ length lines
    pub sent : r.payloads ≡ map rebase (take r.idx lines)

  send_batch-idx :
      (r : Replay)
      → r.idx ≤ length lines
      → let next = (send_batch rebase lines batch_size r).idx in
        (r.idx ≤ next)
        × (next ≤ length lines)
        × (length lines ≤ r.idx + batch_size → next ≡ length lines)
        × (r.idx + batch_size ≤ length lines → next ≡ r.idx + batch_size)
  unfolding send_batch
  send_batch-idx r h = ground arith

  send_batch-IsPrefix : (r : Replay) → IsPrefix r → IsPrefix (send_batch rebase lines batch_size r)
  unfolding send_batch
  send_batch-IsPrefix r p =
      let (low, high, full, part) = send_batch-idx r p.within in
      let limit = (send_batch rebase lines batch_size r).idx in
      record {
        within = high;
        sent =
            ap (λ ps. ps ++ map rebase (take (limit - r.idx) (drop r.idx lines))) p.sent
            ∙ sym (map-append rebase (take r.idx lines) (take (limit - r.idx) (drop r.idx lines)))
            ∙ ap (map rebase) (take_between r.idx limit lines low);
      }

  replay-IsPrefix :
      (events : List Bool) (r : Replay)
      → IsPrefix r
      → IsPrefix (replay rebase lines batch_size events r)
  unfolding replay
  replay-IsPrefix [] r p = p
  replay-IsPrefix (false ∷ events) r p = p
  replay-IsPrefix (true ∷ events) r p =
      let rest =
        replay-IsPrefix events (send_batch rebase lines batch_size r) (send_batch-IsPrefix r p) in
      elim (Bool-cases (ltb r.idx (length lines))) [ inl e ↦ rw e rest | inr e ↦ rw e p ]

  -- With enough ticks, and no interruption, the loop reaches the end of the lines.
  replay-ends :
      (ticks : ℕ) (r : Replay)
      → r.idx ≤ length lines
      → length lines ≤ r.idx + ticks * batch_size
      → (replay rebase lines batch_size (replicate ticks true) r).idx ≡ length lines
  unfolding replay
  replay-ends zero r h enough = omega (arith, h, enough)
  replay-ends (suc ticks) r h enough =
      let (low, high, full, part) = send_batch-idx r h in
      let next = send_batch rebase lines batch_size r in
      let reach : length lines ≤ next.idx + ticks * batch_size = ground (arith, enough) in
      let rest = replay-ends ticks next high reach in
      elim (Bool-cases (ltb r.idx (length lines))) [
        | inl e ↦ rw e rest
        | inr e ↦ rw e ground (arith, e, h)
      ]

-- Of the lines of the file the replay sends a first part, each once, in order and rebased, whatever
-- interrupts it; and with as many ticks as the batches of `batch_size` lines need, or more, and no
-- interruption, it ends and has sent all of them.
pub replay_sends :
    (rebase : Line → Line) (lines : List Line) (rate : ℤ) (events : List Bool) (ticks : ℕ)
    → length lines ≤ ticks * replay_batch_size rate
    → let start : Replay = record { idx = 0; payloads = [] } in
      let cut = replay rebase lines (replay_batch_size rate) events start in
      let whole = replay rebase lines (replay_batch_size rate) (replicate ticks true) start in
      (cut.payloads ≡ map rebase (take cut.idx lines)) × (whole.payloads ≡ map rebase lines)
replay_sends rebase lines rate events ticks enough =
    let batch = replay_batch_size rate in
    let start : Replay = record { idx = 0; payloads = [] } in
    let ready : IsPrefix rebase lines batch start = record { within = omega arith; sent = refl } in
    let all = replay-IsPrefix rebase lines batch (replicate ticks true) start ready in
    let ends = replay-ends rebase lines batch ticks start (omega arith) (omega (arith, enough)) in
    (
      (replay-IsPrefix rebase lines batch events start ready).sent,
      all.sent ∙ ap (map rebase) (take_all _ lines (omega (arith, ends))),
    )

-- A batch is never empty, so that as many ticks as there are lines are always enough.
pub replay_batch_size_positive : (rate : ℤ) → 0 < replay_batch_size rate
unfolding replay_batch_size
replay_batch_size_positive rate = ground arith

pub replay_ticks : (rate : ℤ) (n : ℕ) → n ≤ n * replay_batch_size rate
replay_ticks rate n =
    let some_line = mul-le-mul_left n (replay_batch_size_positive rate) in omega (arith, some_line)
