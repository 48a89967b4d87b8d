-- ===== src/Params/Settings.antt =====
-- src/params.h and src/params.cc: the settings that are whole numbers or flags, and the mode.
pub mod Ranges
use gpuviz.Base.{ℕ, ◌*◌, ◌-◌, ◌^◌, Bool, true, false, not, Option, none, ◌==◌, if◌then◌else◌}
use gpuviz.Base.Int.{ℤ, pos, negsuc, quot_ℤ, to_i64, of_i64, leb_ℤ}
use gpuviz.Base.Words.{u64_mod}
use gpuviz.Stats.{
  TelemetryMode, off, reserved, write_on_local_disk_only, upload_only_controlled_by_mds,
  both_write_and_upload_controlled_by_mds, undefined,
}
use gpuviz.Params.{
  Env, NumericParam, read_numeric_from_env, read_int_from_env, read_bool_from_env,
  read_int_from_env_with_fallback_function,
}

-- `__INT_MAX__`.
abbrev pub int_max : ℤ
int_max = pos (2 ^ 31 - 1)

abbrev pub nccl_telemetry_mode_param : NumericParam ℤ
nccl_telemetry_mode_param = record {
  env_name = "NCCL_TELEMETRY_MODE";
  min = pos 0;
  max = pos 4;
  default_value = pos 0;
  wrong_input_value = pos 0;
  fallback = none;
}

abbrev pub net_plugin_telemetry_mode : NumericParam ℤ
net_plugin_telemetry_mode = record {
  env_name = "NCCL_NET_PLUGIN_TELEMETRY_MODE";
  min = pos 0;
  max = pos 5;
  default_value = pos 0;
  wrong_input_value = pos 5;
  fallback = none;
}

abbrev pub read_interval_in_microseconds : NumericParam ℤ
read_interval_in_microseconds = record {
  env_name = "NCCL_GPUVIZ_READ_INTERVAL_IN_MICROSECONDS";
  min = pos 1000000;
  max = int_max;
  default_value = pos 60000000;
  wrong_input_value = pos 60000000;
  fallback = none;
}

abbrev pub file_rotation_interval_in_seconds : NumericParam ℤ
file_rotation_interval_in_seconds = record {
  env_name = "NCCL_GPUVIZ_FILE_ROTATION_INTERVAL_IN_SECONDS";
  min = pos 0;
  max = int_max;
  default_value = pos 0;
  wrong_input_value = pos 0;
  fallback = none;
}

abbrev pub bw_burst_bucket_count : NumericParam ℤ
bw_burst_bucket_count = record {
  env_name = "NCCL_GPUVIZ_BW_BURST_BUCKET_COUNT";
  min = pos 1;
  max = pos 1000;
  default_value = pos 100;
  wrong_input_value = pos 100;
  fallback = none;
}

abbrev pub jitter_bw_bucket_count : NumericParam ℤ
jitter_bw_bucket_count = record {
  env_name = "NCCL_GPUVIZ_JITTER_BW_BUCKET_COUNT";
  min = pos 0;
  max = pos 100;
  default_value = pos 10;
  wrong_input_value = pos 10;
  fallback = none;
}

abbrev pub bw_histogram_collection_enable : NumericParam ℤ
bw_histogram_collection_enable = record {
  env_name = "NCCL_GPUVIZ_BANDWIDTH_HISTOGRAM_COLLECTION_ENABLE";
  min = pos 0;
  max = pos 1;
  default_value = pos 0;
  wrong_input_value = pos 0;
  fallback = none;
}

abbrev pub variance_hist_collection_enable : NumericParam ℤ
variance_hist_collection_enable = record {
  env_name = "NCCL_GPUVIZ_VARIANCE_HISTOGRAM_COLLECTION_ENABLE";
  min = pos 0;
  max = pos 1;
  default_value = pos 1;
  wrong_input_value = pos 1;
  fallback = none;
}

abbrev pub is_zero : ℤ → Bool
is_zero (pos n) = n == 0
is_zero (negsuc n) = false

pub map_int_to_telemetry_mode : ℤ → TelemetryMode
map_int_to_telemetry_mode (negsuc n) = undefined
map_int_to_telemetry_mode (pos n) =
    if n == 0
    then off
    else if n == 1
    then write_on_local_disk_only
    else if n == 2
    then reserved
    else if n == 3
    then upload_only_controlled_by_mds
    else if n == 4
    then both_write_and_upload_controlled_by_mds
    else undefined

module _ {D : Type 0} (env : Env D) where
  abbrev pub value_int32 : NumericParam ℤ → ℤ
  value_int32 param = read_numeric_from_env leb_ℤ env.simple_atoi32 env param

  abbrev pub value_int64 : NumericParam ℤ → ℤ
  value_int64 param = read_numeric_from_env leb_ℤ env.simple_atoi64 env param

  pub is_profiler_plugin_enabled : Bool
  unfolding read_numeric_from_env
  is_profiler_plugin_enabled = not (is_zero (value_int32 nccl_telemetry_mode_param))

  pub get_plugin_telemetry_mode : TelemetryMode
  unfolding is_profiler_plugin_enabled map_int_to_telemetry_mode read_numeric_from_env
  get_plugin_telemetry_mode =
      if is_profiler_plugin_enabled
      then map_int_to_telemetry_mode (value_int32 nccl_telemetry_mode_param)
      else map_int_to_telemetry_mode (value_int32 net_plugin_telemetry_mode)

  pub get_acs_server_ack_timeout_in_milliseconds : ℤ
  unfolding read_int_from_env
  get_acs_server_ack_timeout_in_milliseconds =
      read_int_from_env env "NCCL_GPUVIZ_ACS_ACK_TIMEOUT_IN_MILLISECONDS" (pos 0) (pos 60000)
        (pos 5000) (pos 5000)

  pub get_read_interval_in_microseconds : ℤ
  unfolding read_numeric_from_env
  get_read_interval_in_microseconds = value_int64 read_interval_in_microseconds

  pub get_file_rotation_interval_in_seconds : ℤ
  unfolding read_numeric_from_env
  get_file_rotation_interval_in_seconds = value_int64 file_rotation_interval_in_seconds

  unfoldable pub get_bandwidth_burst_bucket_count : ℤ
  unfolding read_numeric_from_env
  get_bandwidth_burst_bucket_count = value_int64 bw_burst_bucket_count

  unfoldable pub get_jitter_bandwidth_bucket_count : ℤ
  unfolding read_numeric_from_env
  get_jitter_bandwidth_bucket_count = value_int64 jitter_bw_bucket_count

  unfoldable pub is_bandwidth_histogram_collection_enabled : Bool
  unfolding read_numeric_from_env
  is_bandwidth_histogram_collection_enabled =
      not (is_zero (value_int64 bw_histogram_collection_enable))

  pub is_variance_detection_enabled : Bool
  unfolding read_numeric_from_env
  is_variance_detection_enabled = not (is_zero (value_int64 variance_hist_collection_enable))

  unfoldable pub get_bandwidth_bucket_time_in_milliseconds : ℤ
  unfolding read_int_from_env
  get_bandwidth_bucket_time_in_milliseconds =
      read_int_from_env env "NCCL_GPUVIZ_BW_BUCKET_TIME_IN_MILLISECONDS" (pos 1) (pos 10000) (pos 1)
        (pos 1)

  unfoldable pub get_max_expected_latency_per_tx_in_milliseconds : ℤ
  unfolding read_int_from_env
  get_max_expected_latency_per_tx_in_milliseconds =
      read_int_from_env env "NCCL_GPUVIZ_MAX_EXPECTED_LATENCY_PER_TRANSACTION_IN_MILLISECONDS"
        (pos 0) (pos 10000) (pos 3) (pos 3)

  unfoldable pub is_millisecond_bandwidth_output_enabled : Bool
  unfolding read_int_from_env
  is_millisecond_bandwidth_output_enabled = not (
      is_zero (
        read_int_from_env env "NCCL_GPUVIZ_ENABLE_MILLISECOND_BANDWIDTH_OUTPUT" (pos 0) (pos 1)
          (pos 0) (pos 0)))

  pub get_millisecond_bandwidth_output_rotation_rate : ℤ
  unfolding read_int_from_env_with_fallback_function get_file_rotation_interval_in_seconds
  get_millisecond_bandwidth_output_rotation_rate =
      read_int_from_env_with_fallback_function env
        "NCCL_GPUVIZ_MILLISECOND_BANDWIDTH_FILE_ROTATION_INTERVAL_IN_SECONDS" (pos 1)
        get_file_rotation_interval_in_seconds

  pub get_millisecond_bandwidth_output_batch_size : ℤ
  unfolding read_int_from_env
  get_millisecond_bandwidth_output_batch_size =
      read_int_from_env env "NCCL_GPUVIZ_MILLISECOND_BANDWIDTH_BATCH_SIZE" (pos 1) (pos 1000)
        (pos 100) (pos 100)

  pub get_millisecond_bandwidth_output_interval_in_milliseconds : ℤ
  unfolding read_int_from_env_with_fallback_function get_read_interval_in_microseconds
  get_millisecond_bandwidth_output_interval_in_milliseconds =
      read_int_from_env_with_fallback_function env
        "NCCL_GPUVIZ_MILLISECOND_BANDWIDTH_OUTPUT_INTERVAL" (pos 100)
        (quot_ℤ get_read_interval_in_microseconds 1000)

  -- The bounds are `size_t` and are converted to `int64_t`, the result to `size_t`.
  pub get_non_aggregated_data_size_cap : ℕ
  unfolding read_int_from_env
  get_non_aggregated_data_size_cap = of_i64 (
      read_int_from_env env "NCCL_GPUVIZ_NON_AGGREGATED_DATA_SIZE_CAP" (to_i64 0)
        (to_i64 (u64_mod - 1)) (to_i64 1048576) (to_i64 1048576))

  pub is_acs_end_point_regional : Bool
  unfolding read_int_from_env
  is_acs_end_point_regional = not (
      is_zero
        (read_int_from_env env "NCCL_GPUVIZ_ACS_ENDPOINT_REGIONAL" (pos 0) (pos 1) (pos 0) (pos 0)))

  pub is_send_latency_upload_enabled : Bool
  unfolding read_bool_from_env
  is_send_latency_upload_enabled =
      read_bool_from_env env "NCCL_TELEMETRY_SEND_LATENCY_HISTOGRAM_UPLOAD" true

  pub is_recv_latency_upload_enabled : Bool
  unfolding read_bool_from_env
  is_recv_latency_upload_enabled =
      read_bool_from_env env "NCCL_TELEMETRY_RECV_LATENCY_HISTOGRAM_UPLOAD" false

  pub is_send_message_size_upload_enabled : Bool
  unfolding read_bool_from_env
  is_send_message_size_upload_enabled =
      read_bool_from_env env "NCCL_TELEMETRY_SEND_MESSAGE_SIZE_HISTOGRAM_UPLOAD" true

  pub is_recv_message_size_upload_enabled : Bool
  unfolding read_bool_from_env
  is_recv_message_size_upload_enabled =
      read_bool_from_env env "NCCL_TELEMETRY_RECEIVE_MESSAGE_SIZE_HISTOGRAM_UPLOAD" false

  pub is_send_bandwidth_upload_enabled : Bool
  unfolding read_bool_from_env
  is_send_bandwidth_upload_enabled =
      read_bool_from_env env "NCCL_TELEMETRY_SEND_BANDWIDTH_HISTOGRAM_UPLOAD" false

  pub is_recv_bandwidth_upload_enabled : Bool
  unfolding read_bool_from_env
  is_recv_bandwidth_upload_enabled =
      read_bool_from_env env "NCCL_TELEMETRY_RECV_BANDWIDTH_HISTOGRAM_UPLOAD" false

  pub is_bandwidth_variance_upload_enabled : Bool
  unfolding read_bool_from_env
  is_bandwidth_variance_upload_enabled =
      read_bool_from_env env "NCCL_TELEMETRY_BANDWIDTH_VARIANCE_HISTOGRAM_UPLOAD" false

  pub is_latency_variance_upload_enabled : Bool
  unfolding read_bool_from_env
  is_latency_variance_upload_enabled =
      read_bool_from_env env "NCCL_TELEMETRY_LATENCY_VARIANCE_HISTOGRAM_UPLOAD" true
