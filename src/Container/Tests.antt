-- ===== src/Container/Tests.antt =====
-- Runs of src/nccl_stats_container.cc: the object is the bitmap it was made with, and starts if that is not
-- zero.
use gpuviz.Base.{ℕ, ◌-◌, ◌≡◌, refl, some, none, List, [], ◌∷◌, arith}
use gpuviz.Base.Words.{u64_mod}
use gpuviz.Base.Faults.{Status, ok, internal, value}
use gpuviz.Stats.{TelemetryMode}
use gpuviz.Container.{nccl_success, nccl_invalid_argument, Internal, Singleton, init_v1, destroy}
use gpuviz.Container.Steps.{singleton}
use gpuviz.Container.Sharing.{
  Call, acquire, release, nobody, spec_calls, IsHeld, singleton-IsHeld, calls, calls-IsHeld,
}
use gpuviz.Container.Failure.{failed_then_released}

-- The status of an initialisation is the parameter.
abbrev object : Status → Internal ℕ ℕ ℕ
object started = record {
  create = λ bitmap. bitmap;
  init = λ mode i. (started, i);
  add_log_msg = λ i. i;
  set_plugin_version = λ major minor i. i;
  flush_telemetry = λ i. i;
  close_out_bandwidth_stats = λ i. i;
  add_connection = λ c i. (value c, i);
  delete_connection = λ handle i. (ok, i);
  get_number_of_connections = λ i. 0;
  notify_operation_measurement = λ handle m i. (ok, i);
  notify_profiler_event = λ handle event_data i. (ok, i);
}

abbrev idle : Singleton ℕ
idle = singleton none 0 0 TelemetryMode.off

abbrev four_calls : List Call
four_calls = acquire 7 ∷ acquire 8 ∷ acquire 7 ∷ release ∷ []

calls-IsHeld_example :
    (s' : Singleton ℕ) × (calls (object ok) four_calls idle
      ≡ some ((spec_calls four_calls nobody).0, s'))
    × IsHeld (spec_calls four_calls nobody).1 s'
calls-IsHeld_example =
    calls-IsHeld (object ok) four_calls nobody idle (λ mode bitmap. refl) (omega arith)
      (singleton-IsHeld ℕ 0 TelemetryMode.off)

failed_then_released_example :
    (s1 s2 s3 : Singleton ℕ) × (i j : ℕ) × (init_v1 (object internal) 7 idle
      ≡ some (nccl_invalid_argument, s1))
    × (s1 ≡ singleton (some i) 0 0 TelemetryMode.off)
    × (destroy (object internal) s1 ≡ (nccl_success, s2))
    × (s2 ≡ singleton (some i) (u64_mod - 1) 0 TelemetryMode.off)
    × (init_v1 (object internal) 0 s2 ≡ some (nccl_success, s3))
    × (s3 ≡ singleton (some j) 0 0 TelemetryMode.off)
failed_then_released_example =
    failed_then_released (object internal) none 0 7 TelemetryMode.off (λ h. cc)
