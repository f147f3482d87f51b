-- ===== src/Tools/EndToEnd/Drain.antt =====
-- cmd/e2etest/main.go: the calls of the API, the wait until the pipeline has drained, and the verdict.
-- The HTTP client and json are parameters: what a call gives.
use log_analytics_and_anomal.Prelude.{
  ℕ, suc, Bool, false, ◌&&◌, ◌||◌, List, [], ◌∷◌, Option, none, some, Text, text, text_eq, ℤ, pos,
  ◌+ℤ◌, leb_ℤ, if◌then◌else◌, leb, ◌==◌,
}
use log_analytics_and_anomal.Runtime.{float_of_int, float_ge}
use log_analytics_and_anomal.Runtime.Floats.{float_mul, float_div}
use log_analytics_and_anomal.Tools.EndToEnd.{Phase}
use log_analytics_and_anomal.Tools.LoadTest.Run.{tenths}

-- healthCheck: the status of the answer; none is an error of the connection. true is no error.
unfoldable health_check : Option ℕ → Bool
health_check none = false
health_check (some status) = status == 200

-- What one round of the loop that waits sees: the deadline at its head, the context done in its
-- select, the error of logCount, or its count.
pub data Poll : Type 0 where
  expired interrupted failed : Poll
  counted : ℤ → Poll

-- How the loop ends; `waiting` is a loop that goes on.
pub data Outcome : Type 0 where
  waiting : Outcome
  cut_short : Outcome
  gave_up : ℤ → Outcome
  settled : ℤ → Outcome

abbrev pub same_ℤ : ℤ → ℤ → Bool
same_ℤ a b = leb_ℤ a b && leb_ℤ b a

-- stableRuns after a count.
abbrev pub runs_after : ℤ → ℤ → ℕ → ℕ
runs_after cur prev stable = if same_ℤ cur prev then suc stable else 0

-- float64(cur) >= float64(totalSent)*0.9
abbrev pub most_of : ℤ → ℤ → Bool
most_of total_sent cur =
    float_ge (float_of_int cur) (float_mul (float_of_int total_sent) (tenths 9))

-- Whether the loop breaks at a count.
unfoldable pub is_drained : ℤ → ℤ → ℕ → Bool
is_drained total_sent cur stable = leb_ℤ total_sent cur || (leb 3 stable && most_of total_sent cur)

unfoldable pub drain : ℤ → List Poll → ℕ → ℤ → Outcome
unfolding is_drained
drain total_sent [] stable prev = waiting
drain total_sent (expired ∷ polls) stable prev = gave_up prev
drain total_sent (interrupted ∷ polls) stable prev = cut_short
drain total_sent (failed ∷ polls) stable prev = drain total_sent polls stable prev
drain total_sent (counted cur ∷ polls) stable prev =
    let runs = runs_after cur prev stable in
    let rest = drain total_sent polls runs cur in
    if is_drained total_sent cur runs then settled cur else rest

-- finalLogs: an interruption jumps over its assignment.
abbrev pub final_logs : Outcome → ℤ
final_logs waiting = pos 0
final_logs cut_short = pos 0
final_logs (gave_up prev) = prev
final_logs (settled cur) = cur

pub data Verdict : Type 0 where
  pass warn fail : Verdict

unfoldable pub verdict : ℤ → ℤ → Verdict
verdict final total_sent =
    let index_pct =
      float_mul (float_div (float_of_int final) (float_of_int total_sent))
        (float_of_int (pos 100)) in
    if float_ge index_pct (float_of_int (pos 99))
    then pass
    else if float_ge index_pct (float_of_int (pos 95))
    then warn
    else fail

-- The rules that the report asks about, and the sum of their counts.
abbrev pub rule_types : List Text
rule_types =
    text "error_rate_spike"
    ∷ text "auth_failure_burst"
    ∷ text "latency_threshold"
    ∷ text "repeated_failure"
    ∷ text "off_hours_access"
    ∷ text "service_silence"
    ∷ []

abbrev total_anoms : (Text → ℤ) → List Text → ℤ
total_anoms count [] = pos 0
total_anoms count (rt ∷ rest) = count rt +ℤ total_anoms count rest

-- expectedAnomalies: of a replay, and of the phases of a run.
abbrev replay_expects : List Text
replay_expects =
    text "error_rate_spike"
    ∷ text "auth_failure_burst"
    ∷ text "latency_threshold"
    ∷ text "repeated_failure"
    ∷ text "off_hours_access"
    ∷ []

abbrev phases_expect : {S : Type 0} → List (Phase S) → List Text
phases_expect [] = []
phases_expect (p ∷ ps) =
    if text_eq p.expect_anomaly [] then phases_expect ps else p.expect_anomaly ∷ phases_expect ps
