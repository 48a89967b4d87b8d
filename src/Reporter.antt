-- ===== src/Reporter.antt =====
-- src/nccl_stats_reporter.cc and .h, src/telemetry_provider.h: the reporter. The telemetry provider is
-- an interface, which the aggregator implements. The thread is the loop over `Schedule`; locks are left
-- out, since a call that holds `mtx_` is one step. The clock, whether a file can be opened and the texts
-- of log entries are arguments; a file is the list of the messages written to it. Times and durations
-- are in microseconds.
pub mod Mode
pub mod Schedule
pub mod Reports
mod Tests
use Prim.Native.String.{String, ◌++◌ as string_append}
use gpuviz.Base.{
  ℕ, suc, ◌+◌, ◌-◌, ◌*◌, Bool, true, false, not, ◌&&◌, ◌||◌, ltb, Option, none, some, List, [], ◌∷◌,
  ◌++◌, if◌then◌else◌,
}
use gpuviz.Base.Int.{ℤ, pos, negsuc, of_i64}
use gpuviz.Base.Words.{mul_u64}
use gpuviz.Base.Faults.{◌>>=◌, Status, ok, internal, StatusOr, value, status}
use gpuviz.Params.{Env}
use gpuviz.Params.Settings.{
  get_file_rotation_interval_in_seconds, is_bandwidth_histogram_collection_enabled,
  get_bandwidth_burst_bucket_count, get_bandwidth_bucket_time_in_milliseconds,
  is_millisecond_bandwidth_output_enabled, get_read_interval_in_microseconds,
  get_millisecond_bandwidth_output_interval_in_milliseconds,
}
use gpuviz.Message.{ConnectionStats}
use gpuviz.Executor.{AllStats, ByteSize}
use gpuviz.Executor.Loop.{Executor, upload_finished, update_queue}
use gpuviz.Utils.{filter_histograms_by_dist_type}
use Mode.{ReportMode, determine_report_mode}
use Schedule.{Callback, register_callback_struct}

-- `TelemetryProvider`, on an object in the state `P`.
pub record TelemetryProvider (P L C E : Type 0) : Type 0 where
  pub read_telemetry : P → StatusOr (AllStats L C E) × P
  pub process_high_frequency_telemetry : P → Status × P
  pub add_log_msg : L → P → P

-- The functions that `init` registers.
pub data CallbackName : Type 0 where
  process_high_frequency save_bandwidth_stats read_and_report : CallbackName

pub record Reporter (P D L E : Type 0) : Type 0 where
  pub provider : P
  pub report_mode : ReportMode
  pub upload_executor : Option (Executor L (ConnectionStats D) E)
  pub out_is_open : Bool
  pub out : List (AllStats L (ConnectionStats D) E)
  pub log_file_time : ℕ
  pub log_file_num : ℕ
  pub file_name : String
  pub time_to_callback_list : List (Callback CallbackName)

-- What comes from outside in a call: the wall clock, whether a file could be opened, the name that a
-- new file would get, the printing of numbers, and the entries that the code may log.
pub record Outside (L : Type 0) : Type 0 where
  pub now : ℕ
  pub opened : Bool
  pub new_file_name : String
  pub to_string : ℕ → String
  pub log_entry : L

-- The test before a rotation.
pub is_rotation_due : {D : Type 0} → Env D → ℕ → ℕ → Bool
is_rotation_due env now log_file_time =
    let interval = of_i64 (get_file_rotation_interval_in_seconds env) * 1000000 in
    ltb 0 interval && ltb interval (now - log_file_time)

abbrev join : String → String → String
join a b = string_append a b

-- The callbacks that `init` registers, in the order in which they are to be called.
pub register_callbacks : {D : Type 0} → Env D → ℕ → List (Callback CallbackName)
register_callbacks env current_time =
    let burst =
      mul_u64 (of_i64 (get_bandwidth_burst_bucket_count env))
        (of_i64 (get_bandwidth_bucket_time_in_milliseconds env)) in
    let first =
      if is_bandwidth_histogram_collection_enabled env
      then register_callback_struct current_time (burst * 1000) process_high_frequency []
      else [] in
    let second =
      if is_millisecond_bandwidth_output_enabled env
      then register_callback_struct current_time
          (of_i64 (get_millisecond_bandwidth_output_interval_in_milliseconds env) * 1000)
          save_bandwidth_stats first
      else first in
    register_callback_struct current_time (of_i64 (get_read_interval_in_microseconds env))
      read_and_report second

abbrev pub no_executor_or_finished : {L C E : Type 0} → Option (Executor L C E) → Bool
no_executor_or_finished none = true
no_executor_or_finished (some e) = upload_finished e

module _ {P D L E : Type 0} where
  -- `getFileName`. A time that is set there is a local variable: `log_file_time_` keeps its value.
  pub get_file_name : Outside L → Reporter P D L E → String × Reporter P D L E
  get_file_name w r =
      if not r.out_is_open
      then (join w.new_file_name ".log", record r { file_name = w.new_file_name; log_file_num = 1 })
      else (join (join r.file_name (join "_" (w.to_string r.log_file_num))) ".log", r)

  -- `ShouldReadTelemetry`.
  pub should_read_telemetry : Reporter P D L E → Bool
  should_read_telemetry r = no_executor_or_finished r.upload_executor

  module _ (provider : TelemetryProvider P L (ConnectionStats D) E) where
    -- `rotateLogs`.
    pub rotate_logs : Outside L → Reporter P D L E → Status × Reporter P D L E
    rotate_logs w r =
        let (name, r1) = get_file_name w r in
        if not r.report_mode.write_local_disk
        then (ok, r)
        else if not w.opened
        then (internal, record r1 { provider = provider.add_log_msg w.log_entry r1.provider })
        else (ok, record r1 { log_file_num = suc r1.log_file_num; out_is_open = true })

    -- The rotation at the start of the block that writes to the disk.
    pub rotate_if_due : Env D → Outside L → Reporter P D L E → Reporter P D L E
    rotate_if_due env w r =
        let (s, r1) = rotate_logs w (record r { log_file_time = w.now }) in
        let logged : Reporter P D L E = record r1 {
          provider = provider.add_log_msg w.log_entry r1.provider;
        } in
        if is_rotation_due env w.now r.log_file_time
        then elim s as (λ _. Reporter P D L E) [ ok ↦ r1 | _ ↦ logged ]
        else r

    pub write_to_disk :
        Env D → Outside L → AllStats L (ConnectionStats D) E → Reporter P D L E → Reporter P D L E
    write_to_disk env w m r =
        let r1 = rotate_if_due env w r in
        if r.report_mode.write_local_disk
        then (if r1.out_is_open then record r1 { out = r1.out ++ (m ∷ []) } else r1)
        else r

    -- The block that uploads: the message is filtered and put into the queue.
    pub upload_to :
        ByteSize L (ConnectionStats D) E
        → ℕ
        → L
        → Outside L
        → Option (Executor L (ConnectionStats D) E)
        → AllStats L (ConnectionStats D) E
        → Reporter P D L E
        → Option (Reporter P D L E)
    upload_to byte_size max_size start_entry w none m r = some r
    upload_to byte_size max_size start_entry w (some e) m r = do
      kept ← filter_histograms_by_dist_type r.report_mode.dist_types_to_upload m.conn_stats
      let (s, e') = update_queue byte_size max_size start_entry (record m { conn_stats = kept }) e
      let r' : Reporter P D L E = record r { upload_executor = some e' }
      some (elim s as (λ _. Reporter P D L E) [
        | ok ↦ r'
        | _ ↦ record r' { provider = provider.add_log_msg w.log_entry r'.provider }
      ])

    pub upload :
        ByteSize L (ConnectionStats D) E
        → ℕ
        → L
        → Outside L
        → AllStats L (ConnectionStats D) E
        → Reporter P D L E
        → Option (Reporter P D L E)
    upload byte_size max_size start_entry w m r =
        upload_to byte_size max_size start_entry w r.upload_executor m r

    -- `readAndReportTelemetry`.
    pub read_and_report_telemetry :
        Env D
        → ByteSize L (ConnectionStats D) E
        → ℕ
        → L
        → Outside L
        → Reporter P D L E
        → Option (Reporter P D L E)
    read_and_report_telemetry env byte_size max_size start_entry w r =
        elim (should_read_telemetry r) [
          | false ↦ some r
          | true ↦
              (let (t, p) = provider.read_telemetry r.provider in
                elim t [
                  | value m ↦
                      upload byte_size max_size start_entry w m
                        (write_to_disk env w m (record r { provider = p }))
                  | status _ ↦ some (record r { provider = provider.add_log_msg w.log_entry p })
                ])
        ]

    -- `processHighFrequencyTelemetry`.
    pub process_high_frequency_telemetry : Reporter P D L E → Reporter P D L E
    process_high_frequency_telemetry r = record r {
      provider = (provider.process_high_frequency_telemetry r.provider).1;
    }

    -- `flushTelemetry`; the destructor of the executor is its shutdown.
    pub flush_telemetry :
        Env D
        → ByteSize L (ConnectionStats D) E
        → ℕ
        → L
        → Outside L
        → Reporter P D L E
        → Option (Reporter P D L E)
    flush_telemetry env byte_size max_size start_entry w r = do
      let r1 =
          if is_bandwidth_histogram_collection_enabled env
          then process_high_frequency_telemetry r
          else r
      r2 ← read_and_report_telemetry env byte_size max_size start_entry w r1
      some (record r2 { upload_executor = none })

    -- `init`: the mode, the executor where something is to be uploaded, the file, and the callbacks;
    -- `executor` is a new one with the uploader, and `current_time` the monotonic clock.
    pub init :
        Env D
        → String
        → Executor L (ConnectionStats D) E
        → ℕ
        → Outside L
        → Reporter P D L E
        → Status × Reporter P D L E
    init env uploader_opt_in_override executor current_time w r =
        let (s, mode) = determine_report_mode env uploader_opt_in_override r.report_mode in
        let r1 : Reporter P D L E = record r { report_mode = mode } in
        elim s [
          | ok ↦
              (let r2 : Reporter P D L E = record r1 {
                upload_executor =
                    elim mode.dist_types_to_upload
                      as (λ _. Option (Executor L (ConnectionStats D) E)) [
                        | [] ↦ none
                        | t ∷ ts ↦ some executor
                      ];
              } in
                let (s', r3) = rotate_logs w r2 in
                elim s' [
                  | ok ↦ (
                    ok,
                    record r3 { time_to_callback_list = register_callbacks env current_time },
                  )
                  | e ↦ (e, r3)
                ])
          | e ↦ (e, r1)
        ]
