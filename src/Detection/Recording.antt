-- ===== src/Detection/Recording.antt =====
-- What the four recording rules of internal/detection promise (error_rate.go, latency.go,
-- repeated_failure.go, auth_burst.go): an entry that counts is recorded under its key, and the rule
-- fires on what the newest recorded ones under that key say. Each rule fills `Recording` with its
-- own code, and `fires_exactly` then holds of it.
use log_analytics_and_anomal.Prelude.{
  ℕ, ◌<◌, ◌≡◌, refl, ap, ◌∙◌, Bool, false, true, List, [], ◌∷◌, ◌++◌, Option, none, some, Text,
  last_n, select, length, ℤ, pos, leb_ℤ, append_assoc, append-nil,
}
use log_analytics_and_anomal.Domain.{Time, Duration, LogEntry, Anomaly}
use log_analytics_and_anomal.Window.{Window}
use log_analytics_and_anomal.Window.Valid.{IsValid}
use log_analytics_and_anomal.Window.Contents.{contents}
use log_analytics_and_anomal.Detection.Config.{Moment}
use log_analytics_and_anomal.Detection.SlidingWindow.{is_live}
use log_analytics_and_anomal.Detection.Windows.{
  window_at, observe, observed, Tracks, empty-Tracks, observe-Tracks,
}

abbrev pub is_some {ℓ} : {A : Type ℓ} → Option A → Bool
is_some none = false
is_some (some a) = true

-- What a counting rule asks of the timestamps under a key.
abbrev pub enough : ℤ → Duration → Time → List Time → Bool
enough threshold window now ts = leb_ℤ threshold (pos (length (select (is_live window now) ts)))

module _ {A : Type 0} where
  abbrev pub record_event :
      A → ℕ → Option (Text × A) → List (Text × Window A) → List (Text × Window A)
  record_event blank capacity none windows = windows
  record_event blank capacity (some (k, a)) windows = observe blank capacity k a windows

  -- The verdict on the contents of the buffer under the event's key.
  abbrev pub judged : A → ℕ → (List A → Bool) → Option (Text × A) → List (Text × Window A) → Bool
  judged blank capacity judge none windows = false
  judged blank capacity judge (some (k, a)) windows =
      judge (contents blank (window_at blank capacity windows k))

  abbrev pub event_list : Option (Text × A) → List (Text × A)
  event_list none = []
  event_list (some event) = event ∷ []

  -- The events of a sequence of entries, in order.
  abbrev pub history : (LogEntry → Option (Text × A)) → List (LogEntry × Moment) → List (Text × A)
  history event [] = []
  history event ((e, at) ∷ es) = event_list (event e) ++ history event es

  -- The specification: an entry that counts fires if `judge` says so of the newest `capacity`
  -- events under its key in the history, itself included.
  abbrev pub fires_on :
      ℕ
      → (List A → Bool)
      → (LogEntry → Option (Text × A))
      → List (LogEntry × Moment)
      → LogEntry
      → Bool
  fires_on capacity judge event past e = elim (event e) [
    | none ↦ false
    | some (k, a) ↦ judge (last_n capacity (observed k (history event past ++ (k, a) ∷ [])))
  ]

pub record Recording (R A : Type 0) : Type 0 where
  pub blank : A
  pub windows : R → List (Text × Window A)
  pub capacity : R → ℕ
  pub event_of : R → LogEntry → Option (Text × A)
  pub judge : R → Time → List A → Bool
  pub evaluate : R → LogEntry → Moment → R × Option Anomaly
  pub windows_lem :
      (r : R) (e : LogEntry) (at : Moment)
      → windows (evaluate r e at).0 ≡ record_event blank (capacity r) (event_of r e) (windows r)
  pub fires_lem :
      (r : R) (e : LogEntry) (at : Moment)
      → ((k : Text)
          → IsValid (capacity r) (window_at blank (capacity r) (windows (evaluate r e at).0) k))
      → is_some (evaluate r e at).1
        ≡ judged blank
            (capacity r)
            (judge r at.counted)
            (event_of r e)
            (windows (evaluate r e at).0)
  pub capacity_lem :
      (r : R) (e : LogEntry) (at : Moment) → capacity (evaluate r e at).0 ≡ capacity r
  pub event_lem : (r : R) (e : LogEntry) (at : Moment) → event_of (evaluate r e at).0 ≡ event_of r
  pub judge_lem : (r : R) (e : LogEntry) (at : Moment) → judge (evaluate r e at).0 ≡ judge r

module _ {R A : Type 0} (c : Recording R A) where
  open c use {blank, windows, capacity, event_of, judge, evaluate}

  -- Evaluate, entry after entry.
  abbrev pub run : R → List (LogEntry × Moment) → R
  run r [] = r
  run r ((e, at) ∷ es) = run (evaluate r e at).0 es

  record_event-Tracks :
      (n : ℕ) (past : List (Text × A)) (ws : List (Text × Window A)) (event : Option (Text × A))
      → Tracks blank n past ws
      → Tracks blank n (past ++ event_list event) (record_event blank n event ws)
  record_event-Tracks n past ws none tr = rw (append-nil past) tr
  record_event-Tracks n past ws (some (k, a)) tr = observe-Tracks blank n past ws k a tr

  -- `s` has the settings of `r` and has recorded `past`.
  abbrev Follows : R → R → List (Text × A) → Type 0
  Follows r s past =
      (capacity s ≡ capacity r)
      × (event_of s ≡ event_of r)
      × (judge s ≡ judge r)
      × Tracks blank (capacity r) past (windows s)

  step-Follows :
      (r s : R) (past : List (Text × A)) (e : LogEntry) (at : Moment)
      → Follows r s past
      → Follows r (evaluate s e at).0 (past ++ event_list (event_of r e))
  step-Follows r s past e at (c0, e0, j0, tr) = (
    c.capacity_lem s e at ∙ c0,
    c.event_lem s e at ∙ e0,
    c.judge_lem s e at ∙ j0,
    rw (c.windows_lem s e at, c0, e0)
        (record_event-Tracks (capacity r) past (windows s) (event_of r e) tr),
  )

  run-Follows :
      (r s : R) (past : List (Text × A)) (es : List (LogEntry × Moment))
      → Follows r s past
      → Follows r (run s es) (past ++ history (event_of r) es)
  run-Follows r s past [] f = rw (append-nil past) f
  run-Follows r s past ((e, at) ∷ es) f =
      rw (← append_assoc past (event_list (event_of r e)) (history (event_of r) es))
        (run-Follows r (evaluate s e at).0 _ es (step-Follows r s past e at f))

  judged-holds :
      (n : ℕ) (verdict : List A → Bool) (event : Option (Text × A)) (past : List (Text × A))
      (ws : List (Text × Window A))
      → Tracks blank n (past ++ event_list event) ws
      → judged blank n verdict event ws ≡ elim event [
        | none ↦ false
        | some (k, a) ↦ verdict (last_n n (observed k (past ++ (k, a) ∷ [])))
      ]
  judged-holds n verdict none past ws tr = refl
  judged-holds n verdict (some (k, a)) past ws tr = ap verdict (tr.holds k)

  -- After any history a new rule fires exactly when the specification says so.
  pub fires_exactly :
      (r : R) (past : List (LogEntry × Moment)) (e : LogEntry) (at : Moment)
      → windows r ≡ []
      → 0 < capacity r
      → is_some (evaluate (run r past) e at).1
        ≡ fires_on (capacity r) (judge r at.counted) (event_of r) past e
  fires_exactly r past e at new room =
      let start : Follows r r [] =
        (refl, refl, refl, rw new (empty-Tracks blank (capacity r) room)) in
      let f = run-Follows r r [] past start in
      let g = step-Follows r (run r past) (history (event_of r) past) e at f in
      c.fires_lem (run r past) e at (rw (f.0) g.3.valid)
      ∙ rw (f.0, f.1, f.2)
          (judged-holds (capacity r) (judge r at.counted) (event_of r e) (history (event_of r) past)
            _ g.3)
