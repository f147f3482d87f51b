-- ===== src/Server/Lifecycle.antt =====
-- runPipeline of cmd/server/wire.go: the constructors that can fail, the errors of the goroutines, and
-- the shutdown. What each of these calls gives is a parameter. errgroup is not under src/: its Wait is
-- the parameter `wait`, a function of what the goroutines return, in the order in which they return.
use log_analytics_and_anomal.Prelude.{
  ◌≡◌, refl, ap, subst, ◌∙◌, inl, inr, Bool-cases, Bool, true, false, List, [], ◌∷◌, ◌++◌, map,
  Option, none, some, Text,
}
use log_analytics_and_anomal.Kafka.{Return, no_error, context_error}
use log_analytics_and_anomal.Domain.{Time}
use log_analytics_and_anomal.Runtime.{Runtime}
use log_analytics_and_anomal.Config.{Config}
use log_analytics_and_anomal.Detection.Engine.{DetectorEngine}
use log_analytics_and_anomal.Server.{build_engine}

-- The constructors, in order.
pub data Setup : Type 0 where
  new_client apply_index_templates new_log_indexer new_anomaly_indexer new_consumer : Setup
  new_off_hours_rule : Setup

abbrev pub before_engine : List Setup
before_engine =
    new_client ∷ apply_index_templates ∷ new_log_indexer ∷ new_anomaly_indexer ∷ new_consumer ∷ []

-- An error of the pipeline: of a constructor, of the context, or of a server.
pub data PipelineError : Type 0 where
  setup_error : Setup → PipelineError
  cancelled : PipelineError
  other_error : Text → PipelineError

-- Each constructor is called only if those before it gave no error.
unfoldable pub first_failure : (Setup → Bool) → List Setup → Option Setup
first_failure succeeds [] = none
first_failure succeeds (s ∷ rest) = elim (succeeds s) [
  | true ↦ first_failure succeeds rest
  | false ↦ some s
]

-- An error of ListenAndServe: http.ErrServerClosed, or another.
pub data ServeError : Type 0 where
  server_closed : ServeError
  serve_failed : Text → ServeError

-- The closures around ListenAndServe: ErrServerClosed is no error.
abbrev listen_result : Option ServeError → Option PipelineError
listen_result none = none
listen_result (some server_closed) = none
listen_result (some (serve_failed t)) = some (other_error t)

-- How a goroutine of the group ends: the consumer's Run (Kafka.run), a worker whose channel is closed,
-- the dispatcher's Run (Alert.run), one of the two servers, and the shutdown watcher.
pub data Exit : Type 0 where
  consumer_returned : Return → Exit
  worker_returned : Exit
  dispatcher_returned : Option Text → Exit
  server_stopped : Option ServeError → Exit
  watcher_returned : Exit

-- The error that its function gives the group. The context is cancelled by a signal or by the group,
-- and has no deadline: its error, with which both Runs return, is context.Canceled.
abbrev pub exit_result : Exit → Option PipelineError
exit_result (consumer_returned no_error) = none
exit_result (consumer_returned context_error) = some cancelled
exit_result worker_returned = none
exit_result (dispatcher_returned none) = none
exit_result (dispatcher_returned (some ctx_err)) = some cancelled
exit_result (server_stopped e) = listen_result e
exit_result watcher_returned = none

-- context.Canceled is no error of the pipeline.
abbrev filtered : Option PipelineError → Option PipelineError
filtered (some cancelled) = none
filtered r = r

-- The shutdown watcher: each call's error is logged, and the next follows.
pub data Shutdown : Type 0 where
  stop_api_server stop_metrics_server stop_engine close_log_indexer close_anomaly_indexer : Shutdown

abbrev shutdown_order : List Shutdown
shutdown_order =
    stop_api_server ∷ stop_metrics_server ∷ stop_engine ∷ close_log_indexer ∷ close_anomaly_indexer
    ∷ []

module _ (wait : List (Option PipelineError) → Option PipelineError) where
  abbrev after_engine : Option DetectorEngine → List Exit → Option PipelineError
  after_engine none exits = some (setup_error new_off_hours_rule)
  after_engine (some engine) exits = filtered (wait (map exit_result exits))

  abbrev after_setup : Runtime → Config → Time → List Exit → Option Setup → Option PipelineError
  after_setup rt cfg now exits (some s) = some (setup_error s)
  after_setup rt cfg now exits none = after_engine (build_engine rt cfg.detection now) exits

  -- The error with which runPipeline returns, if any. `exits` are those of the goroutines.
  unfoldable pub run_pipeline :
      Runtime → (Setup → Bool) → Config → Time → List Exit → Option PipelineError
  unfolding first_failure
  run_pipeline rt succeeds cfg now exits =
      after_setup rt cfg now exits (first_failure succeeds before_engine)

some_ne_none : {A : Type 0} {a : A} → ¬ (some a ≡ none)
some_ne_none h = cc

abbrev pub NoErrors : List (Option PipelineError) → Type 0
NoErrors [] = Unit {0}
NoErrors (r ∷ rs) = (r ≡ none) × NoErrors rs

-- An exit that stops nothing: ErrServerClosed is one.
abbrev IsClean : Exit → Type 0
IsClean (consumer_returned no_error) = Unit {0}
IsClean (consumer_returned context_error) = ⊥
IsClean worker_returned = Unit {0}
IsClean (dispatcher_returned none) = Unit {0}
IsClean (dispatcher_returned (some ctx_err)) = ⊥
IsClean (server_stopped none) = Unit {0}
IsClean (server_stopped (some server_closed)) = Unit {0}
IsClean (server_stopped (some (serve_failed t))) = ⊥
IsClean watcher_returned = Unit {0}

abbrev pub AllClean : List Exit → Type 0
AllClean [] = Unit {0}
AllClean (e ∷ es) = IsClean e × AllClean es

exit_result-clean : (e : Exit) → IsClean e → exit_result e ≡ none
exit_result-clean (consumer_returned no_error) h = refl
exit_result-clean (consumer_returned context_error) h = absurd h
exit_result-clean worker_returned h = refl
exit_result-clean (dispatcher_returned none) h = refl
exit_result-clean (dispatcher_returned (some ctx_err)) h = absurd h
exit_result-clean (server_stopped none) h = refl
exit_result-clean (server_stopped (some server_closed)) h = refl
exit_result-clean (server_stopped (some (serve_failed t))) h = absurd h
exit_result-clean watcher_returned h = refl

AllClean-NoErrors : (es : List Exit) → AllClean es → NoErrors (map exit_result es)
AllClean-NoErrors [] h = tt
AllClean-NoErrors (e ∷ es) (h, hs) = (exit_result-clean e h, AllClean-NoErrors es hs)

map-append :
    (es fs : List Exit) → map exit_result (es ++ fs) ≡ map exit_result es ++ map exit_result fs
map-append [] fs = refl
map-append (e ∷ es) fs = ap (λ rs. exit_result e ∷ rs) (map-append es fs)

module _ (wait : List (Option PipelineError) → Option PipelineError)
    (wait_none : (rs : List (Option PipelineError)) → NoErrors rs → wait rs ≡ none)
    (wait_first : (before : List (Option PipelineError)) (e : PipelineError)
        (after : List (Option PipelineError))
      → NoErrors before
      → wait (before ++ some e ∷ after) ≡ some e) where
  run_pipeline_waits :
      (rt : Runtime) (succeeds : Setup → Bool) (cfg : Config) (now : Time) (engine : DetectorEngine)
      (exits : List Exit)
      → first_failure succeeds before_engine ≡ none
      → build_engine rt cfg.detection now ≡ some engine
      → run_pipeline wait rt succeeds cfg now exits ≡ filtered (wait (map exit_result exits))
  unfolding run_pipeline
  run_pipeline_waits rt succeeds cfg now engine exits ok built =
      ap (after_setup wait rt cfg now exits) ok ∙ ap (λ o. after_engine wait o exits) built

  first_exit :
      (before : List Exit) (exit : Exit) (after : List Exit) (e : PipelineError)
      → AllClean before
      → exit_result exit ≡ some e
      → wait (map exit_result (before ++ exit ∷ after)) ≡ some e
  first_exit before exit after e clean is_e =
      ap wait (
        map-append before (exit ∷ after)
        ∙ ap (λ r. map exit_result before ++ r ∷ map exit_result after) is_e)
      ∙ wait_first (map exit_result before) e (map exit_result after)
          (AllClean-NoErrors before clean)

  -- Where every constructor succeeds, the zone of the off-hours rule loads, and Wait gives the first
  -- error that a goroutine returns (nil if there is none): runPipeline returns nil if every goroutine
  -- ends cleanly, where a server that was closed counts as clean; it returns nil if the first not to
  -- end cleanly is the consumer or the dispatcher, with the error of the cancelled context, whatever
  -- follows; and it returns a server's other error if that is the first.
  pub run_pipeline_exact :
      (rt : Runtime) (succeeds : Setup → Bool) (cfg : Config) (now : Time) (engine : DetectorEngine)
      (before after : List Exit) (ctx_err t : Text)
      → first_failure succeeds before_engine ≡ none
      → build_engine rt cfg.detection now ≡ some engine
      → AllClean before
      → let run = run_pipeline wait rt succeeds cfg now in
        (run before ≡ none)
        × (run (before ++ consumer_returned context_error ∷ after) ≡ none)
        × (run (before ++ dispatcher_returned (some ctx_err) ∷ after) ≡ none)
        × (run (before ++ server_stopped (some (serve_failed t)) ∷ after) ≡ some (other_error t))
  run_pipeline_exact rt succeeds cfg now engine before after ctx_err t ok built clean =
      let waits =
        λ (exits : List Exit). run_pipeline_waits rt succeeds cfg now engine exits ok built in
      let first : (exit : Exit) (e : PipelineError)
          → exit_result exit ≡ some e
          → wait (map exit_result (before ++ exit ∷ after)) ≡ some e =
        λ exit e. first_exit before exit after e clean in
      (
        waits before
            ∙ ap filtered (wait_none (map exit_result before) (AllClean-NoErrors before clean)),
        waits _ ∙ ap filtered (first (consumer_returned context_error) cancelled refl),
        waits _ ∙ ap filtered (first (dispatcher_returned (some ctx_err)) cancelled refl),
        waits _ ∙ ap filtered (first (server_stopped (some (serve_failed t))) (other_error t) refl),
      )

first_failure_exact :
    (succeeds : Setup → Bool) (done : List Setup) (s : Setup) (rest : List Setup)
    → first_failure succeeds done ≡ none
    → succeeds s ≡ false
    → first_failure succeeds (done ++ s ∷ rest) ≡ some s
unfolding first_failure
first_failure_exact succeeds [] s rest ok bad = rw bad refl
first_failure_exact succeeds (d ∷ done) s rest ok bad = elim (Bool-cases (succeeds d)) [
  | inl e ↦ rw e (
      first_failure_exact succeeds done s rest
        (subst (λ b. elim b [ true ↦ first_failure succeeds done | false ↦ some d ] ≡ none) e ok)
        bad)
  | inr e ↦ absurd (
      some_ne_none
        (subst (λ b. elim b [ true ↦ first_failure succeeds done | false ↦ some d ] ≡ none) e ok))
]

-- Where a constructor fails and those before it succeed, runPipeline returns its error, and starts
-- nothing, whatever the goroutines would give.
run_pipeline_setup_error :
    (wait : List (Option PipelineError) → Option PipelineError) (rt : Runtime)
    (succeeds : Setup → Bool) (cfg : Config) (now : Time) (exits : List Exit) (done : List Setup)
    (s : Setup) (rest : List Setup)
    → before_engine ≡ done ++ s ∷ rest
    → first_failure succeeds done ≡ none
    → succeeds s ≡ false
    → run_pipeline wait rt succeeds cfg now exits ≡ some (setup_error s)
unfolding run_pipeline
run_pipeline_setup_error wait rt succeeds cfg now exits done s rest split ok bad =
    ap (λ ss. after_setup wait rt cfg now exits (first_failure succeeds ss)) split
    ∙ ap (after_setup wait rt cfg now exits) (first_failure_exact succeeds done s rest ok bad)
