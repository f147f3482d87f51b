-- ===== src/Kafka/Polling.antt =====
-- When Run of internal/kafka/consumer.go returns, and what it has forwarded by then.
use log_analytics_and_anomal.Prelude.{
  ◌≡◌, refl, sym, ap, ◌∙◌, Bool, true, false, ◌||◌, List, [], ◌∷◌, ◌++◌, some, append_assoc,
  append-nil, if◌then◌else◌, arith,
}
use log_analytics_and_anomal.Kafka.{
  Record, message_of, Fetches, no_error, context_error, Running, all_records, handle, close, run,
}
use log_analytics_and_anomal.Kafka.Delivery.{delivered, messages, each_record_exact}

abbrev pub is_last : Fetches → Bool
is_last f = f.client_closed || f.cancelled

abbrev pub GoOn : List Fetches → Type 0
GoOn [] = Unit {0}
GoOn (f ∷ fs) = (is_last f ≡ false) × GoOn fs

-- The records of the fetches whose send goes through.
abbrev pub all_delivered : List Fetches → List Record
all_delivered [] = []
all_delivered (f ∷ fs) = delivered (all_records f.partitions) ++ all_delivered fs

messages-append : (xs ys : List Record) → messages (xs ++ ys) ≡ messages xs ++ messages ys
messages-append [] ys = refl
messages-append (x ∷ xs) ys = ap (λ ms. message_of x ∷ ms) (messages-append xs ys)

run-step :
    (f : Fetches) (rest : List Fetches) (r : Running)
    → is_last f ≡ false
    → run (f ∷ rest) r ≡ run rest (handle f r)
unfolding run
run-step f rest r h = ground arith

run-last :
    (f : Fetches) (rest : List Fetches) (r : Running)
    → is_last f ≡ true
    → (run (f ∷ rest) r).0 ≡ close r
unfolding run
run-last f rest r h = ground arith

run-returns :
    (f : Fetches) (rest : List Fetches) (r : Running)
    → is_last f ≡ true
    → (run (f ∷ rest) r).1 ≡ some (if f.client_closed then no_error else context_error)
unfolding run
run-returns f rest r h = ground arith

handle-Delivers :
    (f : Fetches) (r : Running)
    → ((handle f r).consumer.sent
        ≡ r.consumer.sent ++ messages (delivered (all_records f.partitions)))
      × ((handle f r).consumer.marked ≡ r.consumer.marked ++ delivered (all_records f.partitions))
unfolding handle
handle-Delivers f r = each_record_exact r.consumer (all_records f.partitions)

-- Run goes on as long as a poll finds neither the client closed nor the context done. At the first
-- one that does it returns, with nil if the client is closed and else with the context's error, and
-- closes the channel; and then the channel has been sent the records of all fetches before, each once
-- and in order, but for those whose send lost to the context, and exactly the sent ones are marked.
pub run_delivers :
    (before : List Fetches) (f : Fetches) (rest : List Fetches) (r : Running)
    → GoOn before
    → is_last f ≡ true
    → let (final, result) = run (before ++ f ∷ rest) r in
      (result ≡ some (if f.client_closed then no_error else context_error))
      × (final.closed ≡ true)
      × (final.consumer.sent ≡ r.consumer.sent ++ messages (all_delivered before))
      × (final.consumer.marked ≡ r.consumer.marked ++ all_delivered before)
run_delivers [] f rest r go h =
    let last = run-last f rest r h in
    (
      run-returns f rest r h,
      ap (λ q. q.closed) last,
      ap (λ q. q.consumer.sent) last ∙ sym (append-nil r.consumer.sent),
      ap (λ q. q.consumer.marked) last ∙ sym (append-nil r.consumer.marked),
    )
run_delivers (b ∷ before) f rest r (on, go) h =
    let step = run-step b (before ++ f ∷ rest) r on in
    let (a, c, d, e) = run_delivers before f rest (handle b r) go h in
    let (sent, marked) = handle-Delivers b r in
    (
      ap (λ q. q.1) step ∙ a,
      ap (λ q. q.0.closed) step ∙ c,
      ap (λ q. q.0.consumer.sent) step
          ∙ d
          ∙ ap (λ ms. ms ++ messages (all_delivered before)) sent
          ∙ append_assoc r.consumer.sent (messages (delivered (all_records b.partitions)))
              (messages (all_delivered before))
          ∙ ap (λ ms. r.consumer.sent ++ ms)
              (sym (messages-append (delivered (all_records b.partitions)) (all_delivered before))),
      ap (λ q. q.0.consumer.marked) step
          ∙ e
          ∙ ap (λ ms. ms ++ all_delivered before) marked
          ∙ append_assoc r.consumer.marked (delivered (all_records b.partitions))
              (all_delivered before),
    )
