-- ===== src/Params/Settings/Ranges.antt =====
-- src/params.cc: what the readers give, whatever the environment.
use Prim.Native.String.{String, len}
use gpuviz.Base.{
  ℕ, ◌≡◌, refl, true, false, Option, ◌&&◌, ◌==◌, inl, inr, Bool-cases, Option-cases, arith,
}
use gpuviz.Base.Int.{ℤ, pos, negsuc, quot_ℤ, leb_ℤ, ◌≤ℤ◌}
use gpuviz.Stats.{
  TelemetryMode, off, reserved, write_on_local_disk_only, upload_only_controlled_by_mds,
  both_write_and_upload_controlled_by_mds, undefined,
}
use gpuviz.Params.{
  Env, NumericParam, valid_value, value_or, read_numeric_from_env, read_int_from_env,
  read_int_from_env_with_fallback_function,
}
use gpuviz.Params.Settings.{
  read_interval_in_microseconds, file_rotation_interval_in_seconds, bw_burst_bucket_count,
  jitter_bw_bucket_count, map_int_to_telemetry_mode, get_acs_server_ack_timeout_in_milliseconds,
  get_read_interval_in_microseconds, get_file_rotation_interval_in_seconds,
  get_bandwidth_burst_bucket_count, get_jitter_bandwidth_bucket_count,
  get_bandwidth_bucket_time_in_milliseconds, get_max_expected_latency_per_tx_in_milliseconds,
  get_millisecond_bandwidth_output_rotation_rate, get_millisecond_bandwidth_output_batch_size,
  get_millisecond_bandwidth_output_interval_in_milliseconds, get_non_aggregated_data_size_cap,
}

abbrev pub Within : ℤ → ℤ → ℤ → Type 0
Within low high v = (low ≤ℤ v) × (v ≤ℤ high)

leb→le_ℤ : (a b v : ℤ) → (leb_ℤ a v && leb_ℤ v b) ≡ true → Within a b v
leb→le_ℤ a b v h = ground arith

valid-Within :
    (parse : String → Option ℤ) (str : String) (low high d : ℤ)
    → Within low high d
    → Within low high (value_or (valid_value leb_ℤ parse str low high) d)
unfolding valid_value
valid-Within parse str low high d h = elim (Bool-cases (len str == 0)) [
  | inl e ↦ rw e h
  | inr e ↦ elim (Option-cases (parse str)) [
    | inl f ↦ rw (e, f) h
    | inr (v, f) ↦ elim (Bool-cases (leb_ℤ low v && leb_ℤ v high)) [
      | inl g ↦ rw (e, f, g) (leb→le_ℤ low high v g)
      | inr g ↦ rw (e, f, g) h
    ]
  ]
]

module _ {D : Type 0} (env : Env D) where
  int-Within :
      (name : String) (low high d w : ℤ)
      → Within low high d
      → Within low high w
      → Within low high (read_int_from_env env name low high d w)
  unfolding read_int_from_env
  int-Within name low high d w h k = elim (Option-cases (env.getenv name)) [
    | inl e ↦ rw (e, read_int_from_env) h
    | inr (str, e) ↦ rw (e, read_int_from_env) (valid-Within env.simple_atoi64 str low high w k)
  ]

  numeric-Within :
      (parse : String → Option ℤ) (p : NumericParam ℤ)
      → Within p.min p.max (value_or p.fallback p.default_value)
      → Within p.min p.max p.wrong_input_value
      → Within p.min p.max (read_numeric_from_env leb_ℤ parse env p)
  unfolding read_numeric_from_env
  numeric-Within parse p h k = elim (Option-cases (env.getenv p.env_name)) [
    | inl e ↦ rw (e, read_numeric_from_env) h
    | inr (str, e) ↦
        rw (e, read_numeric_from_env) (valid-Within parse str p.min p.max p.wrong_input_value k)
  ]

  fallback-AtLeast :
      (name : String) (low low' f : ℤ)
      → low' ≤ℤ low
      → low' ≤ℤ f
      → low' ≤ℤ read_int_from_env_with_fallback_function env name low f
  unfolding read_int_from_env_with_fallback_function
  fallback-AtLeast name low low' f h k = elim (Option-cases (env.getenv name)) [
    | inl e ↦ rw (e, read_int_from_env_with_fallback_function) k
    | inr (str, e) ↦ elim (Bool-cases (len str == 0)) [
      | inl g ↦ rw (e, g, read_int_from_env_with_fallback_function) k
      | inr g ↦ elim (Option-cases (env.simple_atoi64 str)) [
        | inl p ↦ rw (e, g, p, read_int_from_env_with_fallback_function) k
        | inr (v, p) ↦ elim (Bool-cases (leb_ℤ low v)) [
          | inl q ↦ rw (e, g, p, q, read_int_from_env_with_fallback_function) (ground arith)
          | inr q ↦ rw (e, g, p, q, read_int_from_env_with_fallback_function) k
        ]
      ]
    ]
  ]

  interval_quotient : (v : ℤ) → pos 1000000 ≤ℤ v → pos 100 ≤ℤ quot_ℤ v 1000
  interval_quotient v h = ground arith

  -- Whatever the environment says, the settings keep to their documented bounds. So the numbers of
  -- buckets and the time of a bucket are positive and bounded, and where a setting of the millisecond
  -- bandwidth output falls back to another setting it is not below its own minimum for the interval,
  -- and not negative for the rotation rate.
  pub settings-Within :
      Within (pos 0) (pos 60000) (get_acs_server_ack_timeout_in_milliseconds env)
      × Within (pos 1000000) (pos 2147483647) (get_read_interval_in_microseconds env)
      × Within (pos 0) (pos 2147483647) (get_file_rotation_interval_in_seconds env)
      × Within (pos 1) (pos 1000) (get_bandwidth_burst_bucket_count env)
      × Within (pos 0) (pos 100) (get_jitter_bandwidth_bucket_count env)
      × Within (pos 1) (pos 10000) (get_bandwidth_bucket_time_in_milliseconds env)
      × Within (pos 0) (pos 10000) (get_max_expected_latency_per_tx_in_milliseconds env)
      × Within (pos 1) (pos 1000) (get_millisecond_bandwidth_output_batch_size env)
      × (pos 0 ≤ℤ get_millisecond_bandwidth_output_rotation_rate env)
      × (pos 100 ≤ℤ get_millisecond_bandwidth_output_interval_in_milliseconds env)
  unfolding get_acs_server_ack_timeout_in_milliseconds get_read_interval_in_microseconds
      get_file_rotation_interval_in_seconds get_bandwidth_burst_bucket_count
      get_jitter_bandwidth_bucket_count get_bandwidth_bucket_time_in_milliseconds
      get_max_expected_latency_per_tx_in_milliseconds get_millisecond_bandwidth_output_rotation_rate
      get_millisecond_bandwidth_output_batch_size
      get_millisecond_bandwidth_output_interval_in_milliseconds
  settings-Within =
      let interval =
        numeric-Within env.simple_atoi64 read_interval_in_microseconds (omega arith, omega arith)
          (omega arith, omega arith) in
      let rotation =
        numeric-Within env.simple_atoi64 file_rotation_interval_in_seconds
          (omega arith, omega arith) (omega arith, omega arith) in
      (
        int-Within _ (pos 0) (pos 60000) (pos 5000) (pos 5000) (omega arith, omega arith)
            (omega arith, omega arith),
        interval,
        rotation,
        numeric-Within env.simple_atoi64 bw_burst_bucket_count (omega arith, omega arith)
            (omega arith, omega arith),
        numeric-Within env.simple_atoi64 jitter_bw_bucket_count (omega arith, omega arith)
            (omega arith, omega arith),
        int-Within _ (pos 1) (pos 10000) (pos 1) (pos 1) (omega arith, omega arith)
            (omega arith, omega arith),
        int-Within _ (pos 0) (pos 10000) (pos 3) (pos 3) (omega arith, omega arith)
            (omega arith, omega arith),
        int-Within _ (pos 1) (pos 1000) (pos 100) (pos 100) (omega arith, omega arith)
            (omega arith, omega arith),
        fallback-AtLeast _ (pos 1) (pos 0) _ (omega arith) rotation.0,
        fallback-AtLeast _ (pos 100) (pos 100) _ (omega arith) (interval_quotient _ interval.0),
      )

  never_valid : (v : ℤ) → (leb_ℤ (pos 0) v && leb_ℤ v (negsuc 0)) ≡ false
  never_valid v = ground arith

  -- The upper bound of the cap, the largest `size_t`, is -1 as an `int64_t`, so that no value is
  -- accepted: the cap is 1 MB, whatever the variable says.
  pub get_non_aggregated_data_size_cap-fixed : get_non_aggregated_data_size_cap env ≡ 1048576
  unfolding get_non_aggregated_data_size_cap read_int_from_env valid_value
  get_non_aggregated_data_size_cap-fixed =
      elim (Option-cases (env.getenv "NCCL_GPUVIZ_NON_AGGREGATED_DATA_SIZE_CAP")) [
        | inl e ↦ rw (e, read_int_from_env) refl
        | inr (str, e) ↦ elim (Bool-cases (len str == 0)) [
          | inl g ↦ rw (e, g, read_int_from_env) refl
          | inr g ↦ elim (Option-cases (env.simple_atoi64 str)) [
            | inl p ↦ rw (e, g, p, read_int_from_env) refl
            | inr (v, p) ↦ rw (e, g, p, never_valid v, read_int_from_env) refl
          ]
        ]
      ]

-- The numbers of `ncclTelemetryMode`, as src/nccl_stats.h declares it.
abbrev pub telemetry_mode_value : TelemetryMode → ℕ
telemetry_mode_value off = 0
telemetry_mode_value reserved = 1
telemetry_mode_value write_on_local_disk_only = 2
telemetry_mode_value upload_only_controlled_by_mds = 3
telemetry_mode_value both_write_and_upload_controlled_by_mds = 4
telemetry_mode_value undefined = 5

abbrev pub exchanged : TelemetryMode → TelemetryMode
exchanged reserved = write_on_local_disk_only
exchanged write_on_local_disk_only = reserved
exchanged m = m

-- `mapIntToTelemetryMode` does not read the numbers of the enumeration back: it takes the number of
-- the reserved mode for writing on the local disk, and that one's for the reserved mode. All other
-- modes come back.
pub map_int_to_telemetry_mode-value :
    (m : TelemetryMode) → map_int_to_telemetry_mode (pos (telemetry_mode_value m)) ≡ exchanged m
unfolding map_int_to_telemetry_mode
map_int_to_telemetry_mode-value off = refl
map_int_to_telemetry_mode-value reserved = refl
map_int_to_telemetry_mode-value write_on_local_disk_only = refl
map_int_to_telemetry_mode-value upload_only_controlled_by_mds = refl
map_int_to_telemetry_mode-value both_write_and_upload_controlled_by_mds = refl
map_int_to_telemetry_mode-value undefined = refl
