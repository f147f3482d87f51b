-- ===== src/Lib.antt =====
-- The log analytics and anomaly detection server: Kafka -> parser -> Elasticsearch and detection
-- engine -> alert dispatcher, and the HTTP API over what has been stored.
--
-- How the parts interact. kafka.Consumer.Run forwards each fetched record to a channel. Workers take
-- it from there: pipeline.ProcessMessage makes a LogEntry of it, which is indexed and given to
-- DetectorEngine.Evaluate. The engine asks each of its six rules, suppresses a (rule, service) pair
-- that passed too recently and puts what passes on a bounded channel; two loops beside it ask the
-- silence rule for services that went quiet and evict what is old. alert.Dispatcher.Run takes the
-- anomalies from the channel, stores each and sends it on. The API handlers turn query parameters
-- into queries of the stores, and the Elasticsearch indexers those into search requests.
--
-- Which file models what:
--   Domain            internal/domain/types.go: the structs as records, any as Value.
--   Assoc             Go maps, as association lists; the loops that delete while they range.
--   Runtime           what the code uses of strings, strconv and time; see below.
--   Window            slidingWindow of internal/detection/window.go, and latencyWindow of latency.go,
--                     which is the same code over another element: add, scan (CountWithin and
--                     StatsWithin), evict (which compacts in place, over the slots it still reads).
--                     Window/Valid: the invariant. Window/Contents: the list that a buffer stands for.
--   Detection         internal/detection. SlidingWindow is the buffer of timestamps; ErrorRate,
--                     Latency, RepeatedFailure, AuthBurst, OffHours and ServiceSilence are the rules
--                     (evaluate_error_rate is ErrorRateRule.Evaluate, reset_error_rate its Reset, and
--                     so on); Windows is the map of buffers that four of them keep; Recording is the
--                     interface that these four fill, with the theorem that they share; Detector is
--                     domain.Detector; Cooldown and Engine are engine.go.
--   Pipeline          internal/pipeline: NormaliseLevel, Parse, ProcessMessage.
--   Kafka             internal/kafka/consumer.go: New's offset, Run.
--   Alert             internal/alert/dispatcher.go: Run.
--   Api               internal/api: the handlers, from decoded parameters to status and body.
--   Elasticsearch     internal/elasticsearch: the queries, the reading of their answers, and (Documents)
--                     the items that IndexLog and IndexAnomaly hand to the bulk indexer.
--   Server            cmd/server/wire.go: the construction of the engine and the loop of a worker;
--                     Lifecycle: the constructors, what each goroutine gives the group, the filter
--                     behind Wait, the shutdown.
--   Config            internal/config/config.go: the structs, the defaults and Load.
--   Tools             cmd/generate-testdata (TestData), cmd/loadtest (LoadTest) and cmd/e2etest
--                     (EndToEnd). Random and Message are what they share, Schedule and Producer the
--                     phases and the workers of the last two, Delivery the server's view of a message.
--   Prelude           texts, integers, lists and rules that the files share.
--   Tests             runs at concrete inputs, and each theorem below at one.
--
-- How state is modelled. A handler is a function from the state, a record, to the new state and its
-- result. A mutex section is one step; where the order of steps matters it is a list of events.
-- Each reading of the clock and each UUID is an argument, so that nothing is assumed
-- of them that a theorem does not say.
--
-- Numbers. An int or int64 is an integer, and a product that the code forms without a bound is
-- wrapped to 64 bits (wrap64). An instant is the integer of nanoseconds since January 1 of year 1;
-- differences of instants and Add are taken to stay in the range of time.Duration, as they do for
-- instants less than 292 years apart, and indices and counts of entries below 2 ^ 63. A buffer's
-- slots, head and count are natural numbers. A text is the list of its code points.
--
-- Parameters. Runtime holds what is not under src/ and not modelled: strconv.ParseFloat, the case
-- maps outside of ASCII, time.LoadLocation, time.Parse and string(bytes). The stores, the alert
-- channel, the Elasticsearch client, json, SHA-256, the printing of a day and errgroup's Wait are
-- parameters of what calls them; whether the bulk indexer takes an item is read with each message.
-- What a theorem assumes of one of them is a hypothesis of that theorem. strings.TrimSpace, ToLower,
-- ToUpper, HasPrefix, Contains, strconv.Atoi, time.Time.Hour and float64 arithmetic (Runtime/Floats)
-- are written out. Where a float64 is out of the range of int64 its conversion is a parameter, as Go
-- leaves it open.
--
-- Reset. A run of a recording rule is a sequence of Evaluate calls (Detection/Recording), or one of
-- Evaluate and Reset calls (Detection/Resetting), whose order says that the clock does not go back.
--
-- Randomness. Code that draws from math/rand is a function from the state of a source (Rand) to a
-- result and the next state, or to none where it panics. Always m P says of such code that, whatever
-- the source draws, it does not panic and its result has the property P.
--
-- Fuel. Runtime.shift_for, which finds the exponent of a float64(int), looks at most 64 steps, and
-- an int64 has at most 63 bits; for products and quotients it looks 128 steps, and these have at most
-- 181 bits of which 53 stay. Elasticsearch.Documents.decimal has one round more than the number,
-- and a number has no more digits than that. Everything else is structural recursion.
--
-- Not modelled: the starting of goroutines in cmd/server, metrics except the counters named in the
-- definitions, logging, the set-up of Elasticsearch, the bulk indexers, routing and middleware, and
-- what the tools of cmd print.
pub mod Prelude
pub mod Window
pub mod Domain
pub mod Assoc
pub mod Runtime
pub mod Detection
pub mod Api
pub mod Elasticsearch
pub mod Pipeline
pub mod Kafka
pub mod Alert
pub mod Config
pub mod Server
pub mod Tools
pub mod Tests
