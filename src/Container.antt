-- ===== src/Container.antt =====
-- src/nccl_stats_container.cc and .h: the container of the aggregator and the reporter, of which there is
-- one at a time, which the callers share. What the container holds is an interface; the handle of the
-- container is its address, and is left out. A call that holds the lock is one step; the assertions of
-- debug builds are left out. `none` is a fault: a null pointer is followed.
pub mod Steps
pub mod Sharing
pub mod Failure
mod Tests
use gpuviz.Base.{ℕ, ◌≡◌, Bool, true, false, not, ◌==◌, Option, none, some, List, if◌then◌else◌}
use gpuviz.Base.Words.{add_u64, sub_u64}
use gpuviz.Base.Faults.{◌>>=◌, Status, ok, invalid_argument, StatusOr, value, status}
use gpuviz.Stats.{TelemetryMode}

pub data NcclResult : Type 0 where
  nccl_success nccl_internal_error nccl_invalid_argument : NcclResult

-- What `NcclStatsContainerInternal` offers in a state `I`, for identifiers `C` of connections and
-- measurements `M`: its constructor, `init`, and the calls of the aggregator, the reporter and the
-- millisecond output that the container makes.
pub record Internal (I C M : Type 0) : Type 0 where
  pub create : ℕ → I
  pub init : TelemetryMode → I → Status × I
  pub add_log_msg : I → I
  pub set_plugin_version : ℕ → ℕ → I → I
  pub flush_telemetry : I → I
  pub close_out_bandwidth_stats : I → I
  pub add_connection : C → I → StatusOr ℕ × I
  pub delete_connection : ℕ → I → Status × I
  pub get_number_of_connections : I → ℕ
  pub notify_operation_measurement : ℕ → M → I → Status × I
  pub notify_profiler_event : ℕ → List ℕ → I → Status × I

-- `NcclStatsContainerSingleton`, with the default mode, which is a global variable.
pub record Singleton (I : Type 0) : Type 0 where
  pub container_internal : Option I
  pub ref_cnt : ℕ
  pub distribution_collector_bitmap : ℕ
  pub default_telemetry_mode : TelemetryMode

-- `ncclSuccess` or `ncclInternalError`, as a status says.
pub result_of : Status → NcclResult
result_of ok = nccl_success
result_of _ = nccl_internal_error

module _ {I : Type 0} where
  -- The end of `getInstance`.
  pub share : ℕ → Singleton I → Status × Singleton I
  share bitmap s =
      if not (s.distribution_collector_bitmap == bitmap)
      then (invalid_argument, s)
      else (ok, record s { ref_cnt = add_u64 s.ref_cnt 1 })

  -- `peekInstance`.
  pub peek_instance : Singleton I → Option I
  peek_instance s = s.container_internal

  -- `dropInstance`.
  pub drop_instance : Singleton I → Singleton I
  drop_instance s =
      let n = sub_u64 s.ref_cnt 1 in
      record s { ref_cnt = n; container_internal = if n == 0 then none else s.container_internal }

  -- A call of the object that the pointer points to.
  abbrev pub on_instance : {A : Type 0} → (I → A × I) → Singleton I → Option (A × Singleton I)
  on_instance f s = do
    i ← peek_instance s
    let (a, i') = f i
    some (a, record s { container_internal = some i' })

  abbrev pub update_instance : (I → I) → Singleton I → Option (Singleton I)
  update_instance f s = do i ← peek_instance s; some (record s { container_internal = some (f i) })

  module _ {C M : Type 0} (internal : Internal I C M) where
    -- `getInstance`.
    pub get_instance : ℕ → Singleton I → Status × Singleton I
    get_instance bitmap s =
        let (t, i) = internal.init s.default_telemetry_mode (internal.create bitmap) in
        let s1 : Singleton I = record s { container_internal = some i } in
        if s.ref_cnt == 0
        then elim t as (λ _. Status × Singleton I) [
          | ok ↦ share bitmap (record s1 { distribution_collector_bitmap = bitmap })
          | _ ↦ (t, s1)
        ]
        else share bitmap s

    -- What `init_v1` does with what `getInstance` has given.
    abbrev pub greet : Status × Singleton I → Option (NcclResult × Singleton I)
    greet (ok, s) = update_instance internal.add_log_msg s >>= λ s'. some (nccl_success, s')
    greet (_, s) = some (nccl_invalid_argument, s)

    pub init_v1 : ℕ → Singleton I → Option (NcclResult × Singleton I)
    init_v1 bitmap s = greet (get_instance bitmap s)

    pub init_v2 : ℕ → TelemetryMode → Singleton I → Option (NcclResult × Singleton I)
    init_v2 bitmap mode s = init_v1 bitmap (record s { default_telemetry_mode = mode })

    pub init : ℕ → TelemetryMode → ℕ → ℕ → Singleton I → Option (NcclResult × Singleton I)
    init bitmap mode major minor s = do
      (res, s1) ← init_v2 bitmap mode s
      elim res [
        | nccl_success ↦ update_instance (internal.set_plugin_version major minor) s1 >>= λ s2.
            some (nccl_success, s2)
        | e ↦ some (e, s1)
      ]

    pub destroy : Singleton I → NcclResult × Singleton I
    destroy s = elim (peek_instance s) [
      | none ↦ (nccl_success, s)
      | some i ↦ (
        nccl_success,
        drop_instance (record s { container_internal = some (internal.flush_telemetry i) }),
      )
    ]

    -- `addConnection`, for either version of the identifier; the handle is null after an error.
    pub add_connection : C → Singleton I → Option (NcclResult × ℕ × Singleton I)
    add_connection c s = do
      (t, s1) ← on_instance (internal.add_connection c) s
      elim t [
        | value handle ↦ some (nccl_success, handle, s1)
        | status e ↦ some (nccl_internal_error, 0, s1)
      ]

    -- What happens when the last connection is deleted.
    abbrev pub clean_up : I → I
    clean_up i =
        if internal.get_number_of_connections i == 0
        then internal.close_out_bandwidth_stats (internal.flush_telemetry i)
        else i

    pub delete_connection : ℕ → Singleton I → Option (NcclResult × Singleton I)
    delete_connection handle s = do
      (t, s1) ← on_instance (internal.delete_connection handle) s
      elim t as (λ _. Option (NcclResult × Singleton I)) [
        | ok ↦ update_instance clean_up s1 >>= λ s2. some (nccl_success, s2)
        | _ ↦ some (nccl_internal_error, s1)
      ]

    pub notify_operation_measurement : ℕ → M → Singleton I → Option (NcclResult × Singleton I)
    notify_operation_measurement handle measurement s = do
      (t, s1) ← on_instance (internal.notify_operation_measurement handle measurement) s
      some (result_of t, s1)

    pub notify_profiler_event : ℕ → List ℕ → Singleton I → Option (NcclResult × Singleton I)
    notify_profiler_event handle event_data s = do
      (t, s1) ← on_instance (internal.notify_profiler_event handle event_data) s
      some (result_of t, s1)
