-- ===== src/Detection/Resetting.antt =====
-- The four recording rules with their Reset, which the eviction loop calls between entries. Each rule
-- fills `Resetting` with its own Reset, and `fires_with_resets` then holds of any mixture of calls.
use log_analytics_and_anomal.Prelude.{
  ◌<◌, ◌≡◌, refl, ap, ◌∙◌, Bool, false, true, List, [], ◌∷◌, ◌++◌, Option, none, some, Text,
  text_key, select, ◌≤ℤ◌, append_assoc, append-nil, arith,
}
use log_analytics_and_anomal.Assoc.{IsDistinct}
use log_analytics_and_anomal.Domain.{Time, LogEntry}
use log_analytics_and_anomal.Window.Valid.{IsValid}
use log_analytics_and_anomal.Detection.Config.{Moment}
use log_analytics_and_anomal.Detection.Windows.{window_at, observed}
use log_analytics_and_anomal.Detection.LiveWindows.{
  Swept, Sound, empty-Sound, later-Sound, observe-Sound, sweep-Sound,
}
use log_analytics_and_anomal.Detection.Recording.{
  Recording, is_some, event_list, record_event, judged,
}

-- A call of a rule: Evaluate with what it reads from outside, or Reset with its two readings of the
-- clock for each key.
pub data RuleCall : Type 0 where
  evaluates : LogEntry → Moment → RuleCall
  resets : (Text → Time) → (Text → Time) → RuleCall

-- The clock never goes back: the calls read it from `t` on, and not after `u`.
abbrev pub InOrder : Time → List RuleCall → Time → Type 0
InOrder t [] u = t ≤ℤ u
InOrder t (evaluates e at ∷ cs) u = (t ≤ℤ at.counted) × InOrder at.counted cs u
InOrder t (resets now later ∷ cs) u =
    (end : Time) × ((k : Text) → (t ≤ℤ now k) × (now k ≤ℤ later k) × (later k ≤ℤ end))
    × InOrder end cs u

module _ {A : Type 0} where
  -- The events of the calls, in order.
  abbrev pub recorded : (LogEntry → Option (Text × A)) → List RuleCall → List (Text × A)
  recorded event [] = []
  recorded event (evaluates e at ∷ cs) = event_list (event e) ++ recorded event cs
  recorded event (resets now later ∷ cs) = recorded event cs

  -- The specification: an entry that counts fires if `judge` says so of every event ever recorded
  -- under its key, itself included. No buffer and no Reset.
  abbrev pub fires_after :
      (List A → Bool) → (LogEntry → Option (Text × A)) → List RuleCall → LogEntry → Bool
  fires_after judge event cs e = elim (event e) [
    | none ↦ false
    | some (k, a) ↦ judge (observed k (recorded event cs ++ (k, a) ∷ []))
  ]

pub record Resetting {R A : Type 0} (c : Recording R A) : Type 0 where
  pub live : R → Time → A → Bool
  pub reset : R → (Text → Time) → (Text → Time) → R
  -- what is live at a reading of the clock was live at any earlier one
  pub fades : (r : R) (t u : Time) (a : A) → t ≤ℤ u → live r u a ≡ true → live r t a ≡ true
  -- the verdict depends on the live events alone
  pub judge_live :
      (r : R) (t : Time) (xs ys : List A)
      → select (live r t) xs ≡ select (live r t) ys
      → c.judge r t xs ≡ c.judge r t ys
  pub live_lem : (r : R) (e : LogEntry) (at : Moment) → live (c.evaluate r e at).0 ≡ live r
  pub reset_keeps :
      (r : R) (now later : Text → Time)
      → (c.capacity (reset r now later) ≡ c.capacity r)
        × (c.event_of (reset r now later) ≡ c.event_of r)
        × (c.judge (reset r now later) ≡ c.judge r)
        × (live (reset r now later) ≡ live r)
  pub reset_distinct :
      (r : R) (now later : Text → Time)
      → IsDistinct (c.windows r)
      → IsDistinct (c.windows (reset r now later))
  pub reset_lem :
      (r : R) (now later : Text → Time) (k : Text)
      → IsDistinct (c.windows r)
      → IsValid (c.capacity r) (window_at c.blank (c.capacity r) (c.windows r) k)
      → Swept c.blank
          (c.capacity r)
          (live r)
          (now k)
          (later k)
          (window_at c.blank (c.capacity r) (c.windows r) k)
          (window_at c.blank (c.capacity r) (c.windows (reset r now later)) k)

module _ {R A : Type 0} (c : Recording R A) (s : Resetting c) where
  open c use {blank, windows, capacity, event_of, judge, evaluate}
  open s use {live, reset}

  abbrev step : R → RuleCall → R
  step r (evaluates e at) = (evaluate r e at).0
  step r (resets now later) = reset r now later

  abbrev pub run_calls : R → List RuleCall → R
  run_calls r [] = r
  run_calls r (call ∷ cs) = run_calls (step r call) cs

  -- The buffer under the event's key is not full, so that Add overwrites nothing.
  abbrev EventHasRoom : R → Option (Text × A) → Type 0
  EventHasRoom r none = Unit {0}
  EventHasRoom r (some (k, a)) = (window_at blank (capacity r) (windows r) k).count < capacity r

  abbrev pub HasRoom : R → LogEntry → Type 0
  HasRoom r e = EventHasRoom r (event_of r e)

  -- No entry of the calls meets a full buffer.
  abbrev pub Roomy : R → List RuleCall → Type 0
  Roomy r [] = Unit {0}
  Roomy r (evaluates e at ∷ cs) = HasRoom r e × Roomy (evaluate r e at).0 cs
  Roomy r (resets now later ∷ cs) = Roomy (reset r now later) cs

  -- `r'` has the settings of `r`, and its buffers are sound for `past` from `t` on.
  record Follows (r r' : R) (t : Time) (past : List (Text × A)) : Type 0 where
    same_capacity : capacity r' ≡ capacity r
    same_event : event_of r' ≡ event_of r
    same_judge : judge r' ≡ judge r
    same_live : live r' ≡ live r
    sound : Sound blank (capacity r') (live r') t past (windows r')

  recorded-Sound :
      (r : R) (t : Time) (past : List (Text × A)) (event : Option (Text × A))
      → EventHasRoom r event
      → Sound blank (capacity r) (live r) t past (windows r)
      → Sound blank
          (capacity r)
          (live r)
          t
          (past ++ event_list event)
          (record_event blank (capacity r) event (windows r))
  recorded-Sound r t past none room snd = rw (append-nil past) snd
  recorded-Sound r t past (some (k, a)) room snd =
      observe-Sound blank (capacity r) (live r) t past (windows r) k a room snd

  evaluate-Follows :
      (r r' : R) (t : Time) (past : List (Text × A)) (e : LogEntry) (at : Moment)
      → t ≤ℤ at.counted
      → HasRoom r' e
      → Follows r r' t past
      → Follows r (evaluate r' e at).0 at.counted (past ++ event_list (event_of r e))
  evaluate-Follows r r' t past e at h room f = record {
    same_capacity = c.capacity_lem r' e at ∙ f.same_capacity;
    same_event = c.event_lem r' e at ∙ f.same_event;
    same_judge = c.judge_lem r' e at ∙ f.same_judge;
    same_live = s.live_lem r' e at ∙ f.same_live;
    sound =
        rw (c.windows_lem r' e at, c.capacity_lem r' e at, s.live_lem r' e at, ← f.same_event)
          (recorded-Sound r' at.counted past (event_of r' e) room
            (later-Sound blank (capacity r') (live r') t at.counted past (windows r') h f.sound));
  }

  reset-Follows :
      (r r' : R) (t end : Time) (past : List (Text × A)) (now later : Text → Time)
      → ((k : Text) → (t ≤ℤ now k) × (now k ≤ℤ later k) × (later k ≤ℤ end))
      → Follows r r' t past
      → Follows r (reset r' now later) end past
  reset-Follows r r' t end past now later h f =
      let (k0, k1, k2, k3) = s.reset_keeps r' now later in
      record {
        same_capacity = k0 ∙ f.same_capacity;
        same_event = k1 ∙ f.same_event;
        same_judge = k2 ∙ f.same_judge;
        same_live = k3 ∙ f.same_live;
        sound =
            rw (k0, k3)
              (sweep-Sound blank (capacity r') (live r') (s.fades r') t end now later past
                (windows r') (windows (reset r' now later)) f.sound
                (s.reset_distinct r' now later f.sound.distinct)
                (λ k. (
                  (h k).0,
                  (h k).1,
                  (h k).2,
                  s.reset_lem r' now later k f.sound.distinct (f.sound.valid k),
                )));
      }

  run_calls-Follows :
      (r r' : R) (t u : Time) (past : List (Text × A)) (cs : List RuleCall)
      → InOrder t cs u
      → Roomy r' cs
      → Follows r r' t past
      → Follows r (run_calls r' cs) u (past ++ recorded (event_of r) cs)
  run_calls-Follows r r' t u past [] h room f = record {
    same_capacity = f.same_capacity;
    same_event = f.same_event;
    same_judge = f.same_judge;
    same_live = f.same_live;
    sound =
        rw (append-nil past)
          (later-Sound blank (capacity r') (live r') t u past (windows r') h f.sound);
  }
  run_calls-Follows r r' t u past (evaluates e at ∷ cs) (h, o) (here, room) f =
      rw (← append_assoc past (event_list (event_of r e)) (recorded (event_of r) cs)) (
        run_calls-Follows r (evaluate r' e at).0 at.counted u _ cs o room
          (evaluate-Follows r r' t past e at h here f))
  run_calls-Follows r r' t u past (resets now later ∷ cs) (end, h, o) room f =
      run_calls-Follows r (reset r' now later) end u past cs o room
        (reset-Follows r r' t end past now later h f)

  judged-holds :
      (r r' : R) (t : Time) (past : List (Text × A)) (event : Option (Text × A))
      → Follows r r' t (past ++ event_list event)
      → judged blank (capacity r') (judge r' t) event (windows r')
        ≡ elim event [ none ↦ false | some (k, a) ↦ judge r t (observed k (past ++ (k, a) ∷ [])) ]
  judged-holds r r' t past none f = refl
  judged-holds r r' t past (some (k, a)) f =
      s.judge_live r' t _ _ (f.sound.same k t (omega arith))
      ∙ ap (λ j. j t (observed k (past ++ (k, a) ∷ []))) f.same_judge

  -- However Evaluate and Reset calls follow one another on a new rule, as long as the clock never
  -- goes back and no recorded entry meets a full buffer, the rule fires exactly when the
  -- specification says so.
  pub fires_with_resets :
      (r : R) (t : Time) (cs : List RuleCall) (e : LogEntry) (at : Moment)
      → windows r ≡ []
      → 0 < capacity r
      → InOrder t cs at.counted
      → Roomy r cs
      → HasRoom (run_calls r cs) e
      → is_some (evaluate (run_calls r cs) e at).1
        ≡ fires_after (judge r at.counted) (event_of r) cs e
  fires_with_resets r t cs e at new room order roomy here =
      let r' = run_calls r cs in
      let start : Follows r r t [] = record {
        same_capacity = refl;
        same_event = refl;
        same_judge = refl;
        same_live = refl;
        sound = rw new (empty-Sound blank (capacity r) (live r) t room);
      } in
      let f = run_calls-Follows r r t at.counted [] cs order roomy start in
      let g =
        evaluate-Follows r r' at.counted (recorded (event_of r) cs) e at (omega arith) here f in
      let g' : Follows r (evaluate r' e at).0 at.counted
          (recorded (event_of r) cs ++ event_list (event_of r e)) =
        g in
      c.fires_lem r' e at (rw (← c.capacity_lem r' e at) g'.sound.valid)
      ∙ rw (← c.capacity_lem r' e at, ← c.judge_lem r' e at, f.same_event)
          (judged-holds r (evaluate r' e at).0 at.counted (recorded (event_of r) cs) (event_of r e)
            g')
