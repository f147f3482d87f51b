-- ===== src/Tests/Lifecycle.antt =====
-- The consumer's loop and the life of the server.
use log_analytics_and_anomal.Prelude.{
  ◌≡◌, refl, true, false, List, [], ◌∷◌, ◌++◌, Option, none, some, text, text_eq, pos,
}
use log_analytics_and_anomal.Kafka.{Record, Fetches, Running, context_error, message_of, run}
use log_analytics_and_anomal.Kafka.Polling.{run_delivers}
use log_analytics_and_anomal.Config.{Config}
use log_analytics_and_anomal.Server.{build_engine}
use log_analytics_and_anomal.Server.Lifecycle.{
  PipelineError, other_error, server_closed, serve_failed, Exit, consumer_returned, worker_returned,
  dispatcher_returned, server_stopped, first_failure, run_pipeline, NoErrors, run_pipeline_exact,
}
use log_analytics_and_anomal.Detection.OffHours.{new_off_hours_access_rule}
use log_analytics_and_anomal.Tests.Samples.{
  sample_runtime, error_cfg, latency_cfg, repeated_cfg, burst_cfg, night_cfg, silence_cfg,
}

abbrev first_record : Record
first_record = record {
  value = 1 ∷ [];
  topic = text "application-logs";
  partition = pos 0;
  offset = pos 5;
  timestamp = pos 0;
}

-- A fetch of one record, and a poll that finds the context done.
abbrev one_record : Fetches
one_record = record {
  client_closed = false;
  cancelled = false;
  partitions =
      record {
        topic = text "application-logs";
        partition = pos 0;
        high_watermark = pos 9;
        records = (first_record, true) ∷ [];
      }
      ∷ [];
}

abbrev context_done : Fetches
context_done = record { client_closed = false; cancelled = true; partitions = [] }

abbrev started : Running
started = record { consumer = record { sent = []; marked = [] }; lags = []; closed = false }

run_delivers_example :
    let (final, result) = run (one_record ∷ context_done ∷ []) started in
    (result ≡ some context_error)
    × (final.closed ≡ true)
    × (final.consumer.sent ≡ message_of first_record ∷ [])
    × (final.consumer.marked ≡ first_record ∷ [])
run_delivers_example = run_delivers (one_record ∷ []) context_done [] started (refl, tt) refl

abbrev sample_config : Config
sample_config = record {
  kafka = record {
    brokers = text "localhost:9092" ∷ [];
    topic = text "application-logs";
    group_id = text "log-analytics";
    initial_offset = text "oldest";
  };
  metrics = record { port = pos 2112 };
  log = record { level = text "info" };
  detection = record {
    window_duration = pos 60;
    eviction_interval = pos 10;
    cooldown_duration = pos 5;
    warmup_multiplier = pos 2;
    rules = record {
      error_rate = error_cfg;
      latency = latency_cfg;
      repeated_failure = repeated_cfg;
      auth_burst = burst_cfg;
      off_hours = night_cfg;
      service_silence = silence_cfg;
    };
  };
  elasticsearch = record {
    addresses = text "http://localhost:9200" ∷ [];
    username = [];
    password = [];
    max_idle_conns = pos 10;
    response_timeout = pos 10000000000;
  };
  api = record { port = pos 8080 };
}

-- A Wait: the first of the results that is an error.
abbrev first_error : List (Option PipelineError) → Option PipelineError
first_error [] = none
first_error (none ∷ rest) = first_error rest
first_error (some e ∷ rest) = some e

first_error-none : (rs : List (Option PipelineError)) → NoErrors rs → first_error rs ≡ none
first_error-none [] h = refl
first_error-none (none ∷ rs) (h, hs) = first_error-none rs hs
first_error-none (some x ∷ rs) (h, hs) = cc

first_error-append :
    (before : List (Option PipelineError)) (e : PipelineError) (after : List (Option PipelineError))
    → NoErrors before
    → first_error (before ++ some e ∷ after) ≡ some e
first_error-append [] e after h = refl
first_error-append (none ∷ before) e after (h, hs) = first_error-append before e after hs
first_error-append (some x ∷ before) e after (h, hs) = cc

-- A worker and a closed server end first; a server's error that follows a cancelled context is lost.
abbrev ended_well : List Exit
ended_well = worker_returned ∷ server_stopped (some server_closed) ∷ []

abbrev bind_failed : Exit
bind_failed = server_stopped (some (serve_failed (text "bind")))

run_pipeline_exact_example :
    let run = run_pipeline first_error sample_runtime (λ s. true) sample_config (pos 0) in
    (run ended_well ≡ none)
    × (run (ended_well ++ consumer_returned context_error ∷ bind_failed ∷ []) ≡ none)
    × (run (ended_well ++ dispatcher_returned (some (text "context canceled")) ∷ bind_failed ∷ [])
        ≡ none)
    × (run (ended_well ++ bind_failed ∷ bind_failed ∷ []) ≡ some (other_error (text "bind")))
unfolding first_failure build_engine new_off_hours_access_rule text_eq
run_pipeline_exact_example =
    run_pipeline_exact first_error first_error-none first_error-append sample_runtime (λ s. true)
      sample_config (pos 0) _ ended_well (bind_failed ∷ []) (text "context canceled") (text "bind")
      refl refl (tt, (tt, tt))
