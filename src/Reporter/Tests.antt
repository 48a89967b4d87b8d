-- ===== src/Reporter/Tests.antt =====
-- Runs of src/nccl_stats_reporter.cc: an environment without variables, a provider whose state is the
-- telemetry that it has, and a list of two callbacks.
use gpuviz.Base.{
  ◌≢◌, ℕ, ◌+◌, ◌≤◌, ◌≡◌, refl, ap, true, false, some, none, Option, List, [], ◌∷◌, ◌⊎◌, arith,
  Bool-cases, inl, inr,
}
use gpuviz.Base.Faults.{ok, value}
use gpuviz.Params.{Env}
use gpuviz.Params.Settings.{get_plugin_telemetry_mode, is_bandwidth_histogram_collection_enabled}
use gpuviz.Message.{ConnectionStats}
use gpuviz.Executor.{AllStats, ByteSize}
use gpuviz.Executor.Loop.{Executor}
use gpuviz.Executor.Loop.Accepts.{upload_finished-busy}
use gpuviz.Reporter.{
  TelemetryProvider, Reporter, Outside, read_and_report_telemetry, flush_telemetry,
  should_read_telemetry, process_high_frequency_telemetry,
}
use gpuviz.Reporter.Mode.{
  Decides, determine_report_mode, initial_mode, determine_report_mode-Decides,
}
use gpuviz.Reporter.Reports.{
  report_not, queued, filtered, report_keeps, flushed, report, flush_then_drop,
}
use gpuviz.Reporter.Schedule.{
  Callback, duration_to_next_call, invoke_callbacks,
  invoke_callbacks_and_return_duration_to_next_callback,
}
use gpuviz.Reporter.Schedule.Rounds.{run_all, next_round_calls}

abbrev no_variables : Env ℕ
no_variables = record {
  getenv = λ name. none;
  simple_atoi64 = λ str. none;
  simple_atoi32 = λ str. none;
  simple_atod = λ str. none;
}

determine_report_mode-Decides_example :
    Decides
      (get_plugin_telemetry_mode no_variables)
      (determine_report_mode no_variables "" initial_mode)
determine_report_mode-Decides_example = determine_report_mode-Decides no_variables ""

-- The name of a callback is a number, and a call puts it into a list.
abbrev call_it : ℕ → List ℕ → List ℕ
call_it c s = c ∷ s

abbrev early : Callback ℕ
early = record { time_to_invoke = 5; callback = 1; invoke_interval = 10 }

abbrev late : Callback ℕ
late = record { time_to_invoke = 8; callback = 2; invoke_interval = 30 }

-- Both callbacks are found at time 5, at which the first is due, and the wait is of 3.
abbrev first_round : List (Callback ℕ) × List ℕ × Option ℕ
first_round =
    invoke_callbacks_and_return_duration_to_next_callback call_it (λ i. 5) 5 (early ∷ late ∷ []) []

abbrev or_zero : Option ℕ → ℕ
or_zero none = 0
or_zero (some w) = w

waits_3 : (w : ℕ) → first_round.2 ≡ some w → (j : ℕ) → 5 + w ≤ 8
unfolding invoke_callbacks_and_return_duration_to_next_callback invoke_callbacks
    duration_to_next_call
waits_3 w h j = omega (arith, ap or_zero h)

next_round_calls_example :
    (w c : ℕ) × (cs : List ℕ) × (first_round.2 ≡ some w)
    × ((invoke_callbacks_and_return_duration_to_next_callback call_it
          (λ i. 8)
          8
          first_round.0
          first_round.1).1
        ≡ run_all call_it (c ∷ cs) first_round.1)
next_round_calls_example =
    next_round_calls call_it (λ i. 5) (λ i. 8) 5 8 early (late ∷ []) [] waits_3

abbrev sizes : ByteSize ℕ (ConnectionStats ℕ) ℕ
sizes = record { log = λ n. n; stats = λ c. 1; event = λ n. n }

abbrev message : AllStats ℕ (ConnectionStats ℕ) ℕ
message = record {
  events_log = 1 ∷ 2 ∷ [];
  conn_stats = [];
  events = 4 ∷ [];
  source_process_identifier = "";
  upload_index = 0;
}

-- The state counts the reads.
abbrev provider : TelemetryProvider ℕ ℕ (ConnectionStats ℕ) ℕ
provider = record {
  read_telemetry = λ p. (value message, p + 1);
  process_high_frequency_telemetry = λ p. (ok, p);
  add_log_msg = λ entry p. p;
}

abbrev idle : Executor ℕ (ConnectionStats ℕ) ℕ
idle = record {
  has_uploader = true;
  uploader_is_dead = false;
  last_upload_success = true;
  q = [];
  shutdown = false;
  source_process_identifier = "p";
  index = 7;
}

abbrev reporter : Reporter ℕ ℕ ℕ ℕ
reporter = record {
  provider = 0;
  report_mode = record { write_local_disk = true; dist_types_to_upload = 0 ∷ [] };
  upload_executor = some idle;
  out_is_open = true;
  out = [];
  log_file_time = 0;
  log_file_num = 1;
  file_name = "stats";
  time_to_callback_list = [];
}

abbrev outside : Outside ℕ
outside = record {
  now = 10;
  opened = true;
  new_file_name = "stats";
  to_string = λ n. "1";
  log_entry = 1;
}

abbrev reported : Option (Reporter ℕ ℕ ℕ ℕ)
reported = read_and_report_telemetry provider no_variables sizes 5 1 outside reporter

report_keeps_example :
    ((idle.q ≢ []) × (reported ≡ some reporter))
    ⊎ ((r' : Reporter ℕ ℕ ℕ ℕ) × (reported ≡ some r')
        × (idle.q ≡ [])
        × (r'.upload_executor
            ≡ some (queued provider sizes 5 1 outside idle (filtered (0 ∷ []) message))))
report_keeps_example =
    report_keeps provider sizes 5 1 outside no_variables reporter idle message refl refl refl refl
      refl

-- A reporter that uploads only, whose uploader is busy.
abbrev upload_only : Reporter ℕ ℕ ℕ ℕ
upload_only = record reporter {
  report_mode = record { write_local_disk = false; dist_types_to_upload = 0 ∷ [] };
  upload_executor = some (record idle { q = some message ∷ [] });
}

abbrev after_flush : Reporter ℕ ℕ ℕ ℕ
after_flush = record upload_only { upload_executor = none }

busy : report provider sizes 5 1 outside no_variables upload_only ≡ some upload_only
unfolding should_read_telemetry
busy = report_not provider sizes 5 1 outside no_variables upload_only (
    upload_finished-busy (record idle { q = some message ∷ [] }) refl (some message) [] refl refl
      refl)

upload_only-flushed : flushed provider sizes 5 1 outside no_variables upload_only ≡ some after_flush
unfolding flush_telemetry process_high_frequency_telemetry
upload_only-flushed = elim (Bool-cases (is_bandwidth_histogram_collection_enabled no_variables)) [
  | inl e ↦ rw (e, busy) refl
  | inr e ↦ rw (e, busy) refl
]

flush_then_drop_example :
    report provider sizes 5 1 outside no_variables after_flush
    ≡ some (record after_flush { provider = 1 })
flush_then_drop_example =
    flush_then_drop provider sizes 5 1 outside no_variables upload_only after_flush outside message
      upload_only-flushed refl refl
