-- ===== src/Tools/EndToEnd/Replay.antt =====
-- cmd/e2etest/main.go: the replay of a log file. A line is its bytes. json and the clock are
-- parameters: what the two decodings of a line give, what a map encodes to, and the ticks.
use log_analytics_and_anomal.Prelude.{
  ℕ, ◌+◌, ◌-◌, Bool, true, false, ◌||◌, List, [], ◌∷◌, ◌++◌, map, Option, none, some, Text,
  text_key, text, text_eq, ℤ, pos, ◌+ℤ◌, ◌-ℤ◌, ltb_ℤ, pos_part, wrap64, ◌*ℤ◌, if◌then◌else◌, ltb,
  length, take, drop,
}
use log_analytics_and_anomal.Assoc.{lookup, insert}
use log_analytics_and_anomal.Domain.{
  Time, Duration, Float64, finite, Value, string, string_in, before, after, zero_time,
}
use log_analytics_and_anomal.Runtime.{Runtime, float_of_int}
use log_analytics_and_anomal.Tools.TestData.Run.{per}
use log_analytics_and_anomal.Runtime.Floats.{float_mul, float_div, int_of_float}

abbrev pub Line : Type 0
Line = List ℕ

-- The results of loadLogsFromFile, and its `first`.
pub record Loaded : Type 0 where
  pub lines : List Line
  pub min_ts : Time
  pub max_ts : Time
  pub first : Bool

abbrev pub no_lines : Loaded
no_lines = record { lines = []; min_ts = zero_time; max_ts = zero_time; first = true }

module _ (rt : Runtime) (timestamp_of : Line → Option Text) where
  -- The timestamp of a line, if it decodes, has one, and that is an RFC 3339 time.
  abbrev pub time_of : Line → Option Time
  time_of raw = elim (timestamp_of raw) [
    | none ↦ none
    | some s ↦ if text_eq s [] then none else rt.parse_rfc3339 s
  ]

  abbrev widen : Option Time → Loaded → Loaded
  widen none l = l
  widen (some t) l = record l {
    min_ts = if l.first || before t l.min_ts then t else l.min_ts;
    max_ts = if l.first || after t l.max_ts then t else l.max_ts;
    first = false;
  }

  -- One round of the loop over scanner.Scan().
  unfoldable pub load_line : Line → Loaded → Loaded
  load_line raw l = let w = widen (time_of raw) l in record w { lines = l.lines ++ raw ∷ [] }

  unfoldable pub load_lines : List Line → Loaded → Loaded
  unfolding load_line
  load_lines [] l = l
  load_lines (raw ∷ rest) l = load_lines rest (load_line raw l)

  -- The file's lines as the scanner gives them, and whether it ends in an error; none is the error of
  -- Open.
  unfoldable pub load_logs_from_file : Option (List Line × Bool) → Option (Loaded × Bool)
  unfolding load_lines
  load_logs_from_file none = none
  load_logs_from_file (some (raws, failed)) = some (load_lines raws no_lines, failed)

module _ (rt : Runtime) (format : Time → Text) (outside : Float64 → ℤ)
    (decode : Line → Option (List (Text × Value)))
    (encode : List (Text × Value) → Option Line) where
  -- Where the time lies in the old span, as a fraction; 0 for a span that is not positive.
  abbrev ratio_of : Time → Time → Duration → Float64
  ratio_of t min_ts span =
      if ltb_ℤ (pos 0) span
      then float_div (float_of_int (t -ℤ min_ts)) (float_of_int span)
      else finite (pos 0) (pos 0)

  abbrev or_raw : Line → Option Line → Line
  or_raw raw none = raw
  or_raw raw (some out) = out

  abbrev rebase_time :
      Line → List (Text × Value) → Time → Duration → Duration → Time → Option Time → Line
  rebase_time raw m min_ts span new_span now none = raw
  rebase_time raw m min_ts span new_span now (some t) =
      let offset =
        int_of_float outside (float_mul (float_of_int new_span) (ratio_of t min_ts span)) in
      or_raw raw (encode (insert (text "timestamp") (string (format (now +ℤ offset))) m))

  abbrev stamp_or_empty : Option Text → Text
  stamp_or_empty none = []
  stamp_or_empty (some s) = s

  abbrev rebase_fields :
      Line → Time → Duration → Duration → Time → Option (List (Text × Value)) → Line
  rebase_fields raw min_ts span new_span now none = raw
  rebase_fields raw min_ts span new_span now (some m) =
      let ts = stamp_or_empty (string_in (lookup (text "timestamp") m)) in
      if text_eq ts []
      then raw
      else rebase_time raw m min_ts span new_span now (rt.parse_rfc3339 ts)

  unfoldable pub rebase_timestamp : Line → Time → Duration → Duration → Time → Line
  rebase_timestamp raw min_ts span new_span now =
      rebase_fields raw min_ts span new_span now (decode raw)

-- batchSize: a tenth of the rate, for a tick of 100 ms, and 1 at least.
unfoldable pub replay_batch_size : ℤ → ℕ
replay_batch_size rate =
    let batch_size = per rate 10 in if ltb_ℤ batch_size (pos 1) then 1 else pos_part batch_size

-- idx, and the payloads handed to Produce.
pub record Replay : Type 0 where
  pub idx : ℕ
  pub payloads : List Line

module _ (rebase : Line → Line) (lines : List Line) (batch_size : ℕ) where
  -- The loop over one batch, up to `end`.
  unfoldable pub send_batch : Replay → Replay
  send_batch r =
      let total = length lines in
      let limit = if ltb total (r.idx + batch_size) then total else r.idx + batch_size in
      record {
        idx = limit;
        payloads = r.payloads ++ map rebase (take (limit - r.idx) (drop r.idx lines));
      }

  -- The loop of produceFromFile over what its select sees: true is a tick, false a context that is
  -- done.
  unfoldable pub replay : List Bool → Replay → Replay
  unfolding send_batch
  replay [] r = r
  replay (false ∷ events) r = r
  replay (true ∷ events) r =
      let rest = replay events (send_batch r) in if ltb r.idx (length lines) then rest else r

-- How produceFromFile maps the lines: the old span, the new one of total / rate seconds, and the
-- rebasing of each line; then the loop.
module _ (rt : Runtime) (format : Time → Text) (outside : Float64 → ℤ)
    (timestamp_of : Line → Option Text) (decode : Line → Option (List (Text × Value)))
    (encode : List (Text × Value) → Option Line) (rate : ℤ) (now : Time) where
  unfoldable pub new_span_of : ℕ → Duration
  new_span_of total = wrap64 (
      int_of_float outside (float_div (float_of_int (pos total)) (float_of_int rate))
      *ℤ pos 1000000000)

  abbrev replay_loaded : List Bool → Option (Loaded × Bool) → Option Replay
  replay_loaded events (some (l, false)) =
      let span = l.max_ts -ℤ l.min_ts in
      let new_span = new_span_of (length l.lines) in
      some (
        replay
          (λ raw. rebase_timestamp rt format outside decode encode raw l.min_ts span new_span now)
          l.lines (replay_batch_size rate) events (record { idx = 0; payloads = [] }))
  replay_loaded events _ = none

  -- none is the exit for a file that does not open or does not scan.
  unfoldable pub produce_from_file : Option (List Line × Bool) → List Bool → Option Replay
  unfolding load_logs_from_file replay new_span_of
  produce_from_file file events = replay_loaded events (load_logs_from_file rt timestamp_of file)
