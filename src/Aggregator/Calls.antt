-- ===== src/Aggregator/Calls.antt =====
-- src/nccl_stats_aggregator.cc: the life of an aggregator, in which the plugin adds and deletes
-- connections and reports operations on them, while the reporter ends intervals and reads the
-- telemetry. A call of each kind is a step. The calls of a plugin by a handle go to the connection of
-- that handle; the container checks no more.
pub mod Connections
pub mod Safety
pub mod Settings
use Prim.Native.String.{String}
use gpuviz.Base.{ℕ, ◌≡◌, Bool, true, false, ◌==◌, Option, none, some, List, [], ◌∷◌, if◌then◌else◌}
use gpuviz.Base.Faults.{◌>>=◌, Status}
use gpuviz.Double.{DoubleOps}
use gpuviz.Params.{Env}
use gpuviz.Stats.{OperationMetric}
use gpuviz.Message.{ConnectionStats}
use gpuviz.Connection.{Connection}
use gpuviz.Connection.Identifier.{ConnectionIdentifier}
use gpuviz.Connection.Notify.{notify_operation_measurement}
use gpuviz.Executor.{AllStats}
use gpuviz.Aggregator.{Aggregator, add_connection, delete_connection}
use gpuviz.Aggregator.Telemetry.{read_telemetry}
use gpuviz.Aggregator.Interval.{process_high_frequency_telemetry}

pub data Call : Type 0 where
  add : (key : ℕ) → Option String → ConnectionIdentifier → Call
  delete : (key : ℕ) → Call
  notify : (key now : ℕ) → OperationMetric → Call
  interval : (now wall : ℕ) → Call
  read : (now : ℕ) → Call

module _ {D : Type 0} ⦃o : DoubleOps D⦄ where
  -- `notifyOperationMeasurement` through the handle `key`.
  pub notify_by :
      ℕ → ℕ → OperationMetric → List (ℕ × Connection D) → Option (List (ℕ × Connection D))
  notify_by key now m [] = none
  notify_by key now m ((k, c) ∷ cs) =
      let rest = notify_by key now m cs in
      if k == key
      then (do (s, c') ← notify_operation_measurement c now m; some ((k, c') ∷ cs))
      else (do cs' ← rest; some ((k, c) ∷ cs'))

  module _ {L E : Type 0} (space_used : L → ℕ) (warning failed : L) (parse : List ℕ → Option E)
      (env : Env D) where
    unfoldable pub call : Call → Aggregator D L → Option (Aggregator D L)
    call (add key nccl_plugin_name c) a =
        add_connection space_used warning env key nccl_plugin_name c a
    call (delete key) a = delete_connection key a
    call (notify key now m) a = do
      cs ← notify_by key now m a.connection_handlers_map
      some (record a { connection_handlers_map = cs })
    call (interval now wall) a = process_high_frequency_telemetry now wall a
    call (read now) a = do
      (stats, a') ← read_telemetry {E = E} space_used parse failed now a
      some a'
