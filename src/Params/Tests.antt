-- ===== src/Params/Tests.antt =====
-- Runs of src/params.cc over an environment in which one variable, or every variable, is set.
use gpuviz.Base.{ℕ, ◌≡◌, ◌⊎◌, refl, false, some}
use gpuviz.Base.Int.{pos, ◌≤ℤ◌}
use gpuviz.Double.{DoubleOps, whole_ops}
use gpuviz.Stats.{TelemetryMode}
use gpuviz.Params.{Env}
use gpuviz.Params.Settings.{
  get_acs_server_ack_timeout_in_milliseconds, get_read_interval_in_microseconds,
  get_file_rotation_interval_in_seconds, get_bandwidth_burst_bucket_count,
  get_jitter_bandwidth_bucket_count, get_bandwidth_bucket_time_in_milliseconds,
  get_max_expected_latency_per_tx_in_milliseconds, get_millisecond_bandwidth_output_rotation_rate,
  get_millisecond_bandwidth_output_batch_size,
  get_millisecond_bandwidth_output_interval_in_milliseconds, get_non_aggregated_data_size_cap,
  map_int_to_telemetry_mode,
}
use gpuviz.Params.Settings.Ranges.{
  Within, settings-Within, get_non_aggregated_data_size_cap-fixed, map_int_to_telemetry_mode-value,
}
use gpuviz.Params.Buckets.{Setting, from_min, get_bucket_params, get_bucket_params-in_order}

-- Every variable is set, to a text that reads as 5.
abbrev all_five : Env ℕ
all_five = record {
  getenv = λ name. some "5";
  simple_atoi64 = λ str. some (pos 5);
  simple_atoi32 = λ str. some (pos 5);
  simple_atod = λ str. some 5;
}

settings-Within_example :
    Within (pos 0) (pos 60000) (get_acs_server_ack_timeout_in_milliseconds all_five)
    × Within (pos 1000000) (pos 2147483647) (get_read_interval_in_microseconds all_five)
    × Within (pos 0) (pos 2147483647) (get_file_rotation_interval_in_seconds all_five)
    × Within (pos 1) (pos 1000) (get_bandwidth_burst_bucket_count all_five)
    × Within (pos 0) (pos 100) (get_jitter_bandwidth_bucket_count all_five)
    × Within (pos 1) (pos 10000) (get_bandwidth_bucket_time_in_milliseconds all_five)
    × Within (pos 0) (pos 10000) (get_max_expected_latency_per_tx_in_milliseconds all_five)
    × Within (pos 1) (pos 1000) (get_millisecond_bandwidth_output_batch_size all_five)
    × (pos 0 ≤ℤ get_millisecond_bandwidth_output_rotation_rate all_five)
    × (pos 100 ≤ℤ get_millisecond_bandwidth_output_interval_in_milliseconds all_five)
settings-Within_example = settings-Within all_five

get_non_aggregated_data_size_cap-fixed_example : get_non_aggregated_data_size_cap all_five ≡ 1048576
get_non_aggregated_data_size_cap-fixed_example = get_non_aggregated_data_size_cap-fixed all_five

map_int_to_telemetry_mode-value_example :
    map_int_to_telemetry_mode (pos 1) ≡ TelemetryMode.write_on_local_disk_only
map_int_to_telemetry_mode-value_example = map_int_to_telemetry_mode-value TelemetryMode.reserved

-- Over whole numbers, with a default base of 2.
abbrev size_setting : Setting ℕ
size_setting = from_min ⦃o = whole_ops⦄ "SIZE" 1 100

abbrev scale_setting : Setting ℕ
scale_setting = from_min ⦃o = whole_ops⦄ "SCALE" 1 10

abbrev base_setting : Setting ℕ
base_setting = from_min ⦃o = whole_ops⦄ "BASE" 1 2

get_bucket_params-in_order_example :
    let o : DoubleOps ℕ = whole_ops in
    let p = get_bucket_params ⦃o = o⦄ all_five size_setting scale_setting base_setting in
    (o.le p.max_buckets p.scale ≡ false)
    × (o.le p.base 1 ≡ false)
    × ((o.le (o.div p.max_buckets p.scale) p.base ≡ false) ⊎ (p.base ≡ 2))
get_bucket_params-in_order_example =
    get_bucket_params-in_order ⦃o = whole_ops⦄ all_five size_setting scale_setting base_setting refl
      refl
