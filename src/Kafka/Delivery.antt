-- ===== src/Kafka/Delivery.antt =====
-- What is marked has been sent, and what has been sent is marked.
use log_analytics_and_anomal.Prelude.{
  ◌≡◌, sym, ◌∙◌, Bool, true, false, List, [], ◌∷◌, ◌++◌, append_assoc, append-nil,
}
use log_analytics_and_anomal.Domain.{RawMessage}
use log_analytics_and_anomal.Kafka.{Record, Consumer, message_of, forward, each_record}

-- The records whose send went through.
abbrev pub delivered : List (Record × Bool) → List Record
delivered [] = []
delivered ((r, true) ∷ rest) = r ∷ delivered rest
delivered ((r, false) ∷ rest) = delivered rest

abbrev pub messages : List Record → List RawMessage
messages [] = []
messages (r ∷ rs) = message_of r ∷ messages rs

-- The records of a fetch whose send goes through are sent and marked, each once and in order, and no
-- other record of the fetch is either.
pub each_record_exact :
    (c : Consumer) (fetch : List (Record × Bool))
    → ((each_record c fetch).sent ≡ c.sent ++ messages (delivered fetch))
      × ((each_record c fetch).marked ≡ c.marked ++ delivered fetch)
unfolding each_record forward
each_record_exact c [] = (sym (append-nil c.sent), sym (append-nil c.marked))
each_record_exact c ((r, true) ∷ rest) =
    let ih = each_record_exact (forward c r true) rest in
    (
      ih.0 ∙ append_assoc c.sent (message_of r ∷ []) (messages (delivered rest)),
      ih.1 ∙ append_assoc c.marked (r ∷ []) (delivered rest),
    )
each_record_exact c ((r, false) ∷ rest) = each_record_exact c rest
