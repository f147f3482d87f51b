-- ===== src/Kafka.antt =====
-- internal/kafka/consumer.go: New's choice of an offset and Run, which forwards fetched records to
-- the channel. The client is not under src/: what a poll gives is a parameter, and what the client has
-- been told, the records marked for commit and its closing, is part of the state.
pub mod Delivery
pub mod Polling
use log_analytics_and_anomal.Prelude.{
  ℕ, Bool, true, false, List, [], ◌∷◌, ◌++◌, Option, none, some, Text, ℤ, pos, ◌-ℤ◌, text, text_eq,
  if◌then◌else◌,
}
use log_analytics_and_anomal.Domain.{Time, RawMessage}

-- kgo.Record
pub record Record : Type 0 where
  pub value : List ℕ
  pub topic : Text
  pub partition : ℤ
  pub offset : ℤ
  pub timestamp : Time

abbrev pub message_of : Record → RawMessage
message_of r = record {
  payload = r.value;
  topic = r.topic;
  partition = r.partition;
  offset = r.offset;
  timestamp = r.timestamp;
}

-- What the consumer has sent on its channel, and what it has marked, oldest first.
pub record Consumer : Type 0 where
  pub sent : List RawMessage
  pub marked : List Record

-- The select: true if the send went through (then the record is marked), false if the context was
-- done. Where both are ready Go chooses at random, so the outcome is an argument.
unfoldable pub forward : Consumer → Record → Bool → Consumer
forward c r true = record { sent = c.sent ++ message_of r ∷ []; marked = c.marked ++ r ∷ [] }
forward c r false = c

-- EachRecord: a `return` in the callback leaves the callback only, and the next record follows.
unfoldable pub each_record : Consumer → List (Record × Bool) → Consumer
unfolding forward
each_record c [] = c
each_record c ((r, outcome) ∷ rest) = each_record (forward c r outcome) rest

-- EachPartition: the lag that is published, from the high watermark and the last record's offset.
unfoldable lag_of : ℤ → List Record → ℤ
lag_of high_watermark [] = pos 0
lag_of high_watermark (r ∷ []) = high_watermark -ℤ r.offset -ℤ pos 1
lag_of high_watermark (r ∷ s ∷ rest) = lag_of high_watermark (s ∷ rest)

-- kgo.NewOffset().AtStart() and .AtEnd()
pub data Offset : Type 0 where
  at_start at_end : Offset

unfoldable initial_offset : Text → Offset
initial_offset setting = if text_eq setting (text "newest") then at_end else at_start

-- kgo.FetchTopicPartition; beside each record stands the outcome of its select.
pub record Partition : Type 0 where
  pub topic : Text
  pub partition : ℤ
  pub high_watermark : ℤ
  pub records : List (Record × Bool)

-- What PollFetches gives: IsClientClosed, whether the context has an error, and the partitions. Its
-- errors are only logged.
pub record Fetches : Type 0 where
  pub client_closed : Bool
  pub cancelled : Bool
  pub partitions : List Partition

-- Run's results: nil, and the context's error.
pub data Return : Type 0 where
  no_error context_error : Return

-- The lags that were published, oldest first, and what the two deferred calls do.
pub record Running : Type 0 where
  pub consumer : Consumer
  pub lags : List (Text × ℤ × ℤ)
  pub closed : Bool

abbrev records_of : List (Record × Bool) → List Record
records_of [] = []
records_of ((r, outcome) ∷ rest) = r ∷ records_of rest

abbrev published : List Partition → List (Text × ℤ × ℤ)
published [] = []
published (p ∷ rest) =
    (p.topic, p.partition, lag_of p.high_watermark (records_of p.records)) ∷ published rest

abbrev pub all_records : List Partition → List (Record × Bool)
all_records [] = []
all_records (p ∷ rest) = p.records ++ all_records rest

-- EachPartition and EachRecord of one fetch.
unfoldable pub handle : Fetches → Running → Running
unfolding each_record lag_of
handle f r = record r {
  consumer = each_record r.consumer (all_records f.partitions);
  lags = r.lags ++ published f.partitions;
}

abbrev pub close : Running → Running
close r = record r { closed = true }

-- Run over what its polls give; none is a loop that goes on.
unfoldable pub run : List Fetches → Running → Running × Option Return
unfolding handle
run [] r = (r, none)
run (f ∷ rest) r =
    let onward = run rest (handle f r) in
    if f.client_closed
    then (close r, some no_error)
    else if f.cancelled
    then (close r, some context_error)
    else onward
