-- ===== src/Tests/Buffers.antt =====
-- The circular buffers.
use log_analytics_and_anomal.Prelude.{◌≡◌, refl, inl, Bool, [], ◌∷◌, pos, arith, ltb_ℤ, ◌-ℤ◌}
use log_analytics_and_anomal.Domain.{zero_time}
use log_analytics_and_anomal.Window.{add, evict, scan}
use log_analytics_and_anomal.Window.Valid.{IsValid}
use log_analytics_and_anomal.Window.Contents.{contents-add}
use log_analytics_and_anomal.Window.Evict.{contents-evict}
use log_analytics_and_anomal.Detection.SlidingWindow.{
  SlidingWindow, new_sliding_window, count_within, evict_older, timestamps,
}
use log_analytics_and_anomal.Detection.SlidingWindow.Eviction.{
  count_within-evict_older, evict_older_loses_newest,
}
use log_analytics_and_anomal.Detection.Latency.{LatencyWindow}

-- Three slots, all of them used; the oldest timestamp, 10, stands in slot 1.
abbrev wrapped : SlidingWindow
wrapped = record { slots = pos 30 ∷ pos 10 ∷ pos 20 ∷ []; head = 4; count = 3 }

-- The same timestamps, the oldest in slot 0.
abbrev straight : SlidingWindow
straight = record { slots = pos 10 ∷ pos 20 ∷ pos 30 ∷ []; head = 3; count = 3 }

wrapped-IsValid : IsValid 3 wrapped
wrapped-IsValid = record {
  room = omega arith;
  size = refl;
  within = omega arith;
  reached = omega arith;
  full_or_fresh = inl refl;
}

straight-IsValid : IsValid 3 straight
straight-IsValid = record {
  room = omega arith;
  size = refl;
  within = omega arith;
  reached = omega arith;
  full_or_fresh = inl refl;
}

timestamps-wrapped : timestamps wrapped ≡ pos 10 ∷ pos 20 ∷ pos 30 ∷ []
timestamps-wrapped = refl

count_within-wrapped : count_within wrapped (pos 20) (pos 35) ≡ 2
unfolding count_within scan ◌-ℤ◌
count_within-wrapped = refl

-- With a cutoff of 5 all three are live, and the newest is lost.
evict_older-wrapped :
    timestamps (evict_older wrapped (pos 30) (pos 35)) ≡ pos 10 ∷ pos 20 ∷ pos 10 ∷ []
unfolding evict_older evict ◌-ℤ◌
evict_older-wrapped = refl

evict_older-straight : timestamps (evict_older straight (pos 20) (pos 35)) ≡ pos 20 ∷ pos 30 ∷ []
unfolding evict_older evict ◌-ℤ◌
evict_older-straight = refl

contents-add_example : timestamps (add wrapped (pos 40)) ≡ pos 20 ∷ pos 30 ∷ pos 40 ∷ []
contents-add_example = contents-add zero_time wrapped (pos 40) wrapped-IsValid

contents-evict_example :
    timestamps (evict (λ t. ltb_ℤ (pos 15) t) zero_time straight) ≡ pos 20 ∷ pos 30 ∷ []
contents-evict_example =
    contents-evict (λ t. ltb_ℤ (pos 15) t) zero_time straight straight-IsValid refl

count_within-evict_older_example :
    count_within (evict_older straight (pos 20) (pos 35)) (pos 20) (pos 45)
    ≡ count_within straight (pos 20) (pos 45)
count_within-evict_older_example =
    count_within-evict_older straight (pos 20) (pos 35) (pos 45) straight-IsValid refl (omega arith)

evict_older_loses_newest_example :
    (timestamps (add (add (add (new_sliding_window 2) (pos 10)) (pos 20)) (pos 30))
      ≡ pos 20 ∷ pos 30 ∷ [])
    × (timestamps (
          evict_older
            (add (add (add (new_sliding_window 2) (pos 10)) (pos 20)) (pos 30))
            (pos 50)
            (pos 31))
        ≡ pos 20 ∷ pos 20 ∷ [])
unfolding ◌-ℤ◌
evict_older_loses_newest_example =
    evict_older_loses_newest (pos 10) (pos 20) (pos 30) (pos 50) (pos 31) refl refl

abbrev requests : LatencyWindow
requests = record {
  slots =
      record { timestamp = pos 30; breached = Bool.true }
      ∷ record { timestamp = pos 10; breached = Bool.true }
      ∷ record { timestamp = pos 20; breached = Bool.false }
      ∷ [];
  head = 4;
  count = 3;
}

requests-IsValid : IsValid 3 requests
requests-IsValid = record {
  room = omega arith;
  size = refl;
  within = omega arith;
  reached = omega arith;
  full_or_fresh = inl refl;
}
