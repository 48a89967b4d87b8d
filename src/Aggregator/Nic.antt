-- ===== src/Aggregator/Nic.antt =====
-- src/nccl_stats_aggregator.cc and .h: what the aggregator keeps for a NIC, `NicBWAggregationStats`,
-- and how its bandwidth becomes histograms at the end of a high-frequency interval.
-- `none` is a fault: a null pointer is followed or a vector is accessed past its end.
pub mod Rounds
pub mod Smoothing
pub mod Conserved
pub mod Ready
pub mod Safety
pub mod Addresses
pub mod Missing
use Prim.Native.String.{String}
use gpuviz.Base.{
  ℕ, ◌+◌, ◌*◌, ◌/◌, Bool, true, false, ◌&&◌, ◌==◌, leb, Option, none, some, List, [], ◌∷◌, map,
  length, get_elem?, take, replicate, if◌then◌else◌,
}
use gpuviz.Base.Words.{mul_u64}
use gpuviz.Base.Faults.{◌>>=◌, update, for_range}
use gpuviz.Double.{DoubleOps}
use gpuviz.Bucketer
use gpuviz.Bucketer.{Bucketer}
use gpuviz.Params.{Env, BucketerParams}
use gpuviz.Params.Buckets.{
  get_bucketer_params_for_nic_bw_histogram, get_bucketer_params_for_nic_bw_variance_histogram,
  get_bucketer_params_for_nic_latency_variance_histogram,
}
use gpuviz.Stats.{ConnectionType, PluginType, mask}
use gpuviz.Stats.Idx
use gpuviz.Connection.{
  Two, at, put, get_bw_vec_valid_limit, calculate_bw_per_bucket_in_bits_per_sec,
  is_bw_collection_enabled_in_bit_map,
}
use gpuviz.Connection.Interval.{latency_variance, zeros_like}
use gpuviz.MsecBandwidth.{MsecBandwidth, copy_over_bandwidth_stats}

-- `NicBWDirection`.
abbrev pub nccl_nic_send : ℕ
nccl_nic_send = 0

abbrev pub nccl_nic_recv : ℕ
nccl_nic_recv = 1

pub record NicStats (D : Type 0) : Type 0 where
  pub nccl_plugin_type : PluginType
  pub nccl_plugin_name : String
  pub gpu_pci_addr : String
  pub nic_ip : String
  pub conn_type : ConnectionType
  pub nic_bw : Two (List D)
  pub offered_load : Two (List ℕ)
  pub latency : List D
  pub nic_bw_stats : Two (Option (Bucketer D))
  pub nic_bw_variance_stats : Option (Bucketer D)
  pub nic_latency_variance_stats : Option (Bucketer D)

-- The members of the aggregator that its constructor sets for good.
pub record Constants (D : Type 0) : Type 0 where
  pub bw_burst_count : ℕ
  pub bw_bucket_time_in_milliseconds : ℕ
  pub max_expected_latency_per_tx_milliseconds : ℕ
  pub carry_over_buckets : ℕ
  pub distribution_collector_bitmap : ℕ
  pub bw_hist_collection_enabled : Bool
  pub baseline_latency_in_ns : D
  pub variance_hist_collection_enabled : Bool
  pub msec_bw_output_enabled : Bool

-- The members that `InitConstants` sets.
pub record Rates (D : Type 0) : Type 0 where
  pub nic_speed : D
  pub empr_nic_speed : D
  pub nic_speed_init : Bool
  pub target_bw_per_nic_in_bits_per_sec : D
  pub max_bytes_per_bucket : D

module _ {D : Type 0} ⦃o : DoubleOps D⦄ where
  -- `distribution_bucketer->Submit(sample)`.
  pub submit_to_pointer : Option (Bucketer D) → D → Option (Option (Bucketer D))
  submit_to_pointer none sample = none
  submit_to_pointer (some b) sample = some (some (Bucketer.submit b sample))

  abbrev pub new_pointer : BucketerParams D → Option (Bucketer D)
  new_pointer p = some (Bucketer.new p.max_buckets p.scale p.base)

  -- `allocateNicBwAggregationStats`.
  pub allocate_nic_bw_aggregation_stats : ℕ → BucketerParams D → ℕ → NicStats D → NicStats D
  allocate_nic_bw_aggregation_stats bw_burst_count p direction nic = record nic {
    nic_bw = put nic.nic_bw direction (replicate bw_burst_count (o.of_nat 0));
    offered_load = put nic.offered_load direction (replicate bw_burst_count 0);
    nic_bw_stats = put nic.nic_bw_stats direction (new_pointer p);
  }

  -- What `allocateBWStats` adds to the identity of a new NIC.
  pub allocate_nic : Env D → Constants D → D → NicStats D → NicStats D
  allocate_nic env k nic_speed nic =
      let p = get_bucketer_params_for_nic_bw_histogram env nic_speed in
      let sending =
        is_bw_collection_enabled_in_bit_map k.distribution_collector_bitmap
          (mask Idx.send_latency_sw) (mask Idx.send_message_size) in
      let receiving =
        is_bw_collection_enabled_in_bit_map k.distribution_collector_bitmap
          (mask Idx.recv_latency_sw) (mask Idx.recv_message_size) in
      let with_send = allocate_nic_bw_aggregation_stats k.bw_burst_count p nccl_nic_send nic in
      let with_variance : NicStats D = record with_send {
        nic_bw_variance_stats =
            new_pointer (get_bucketer_params_for_nic_bw_variance_histogram env nic_speed);
        nic_latency_variance_stats =
            new_pointer (get_bucketer_params_for_nic_latency_variance_histogram env);
        latency = replicate k.bw_burst_count (o.of_nat 0);
      } in
      let sent =
        if sending
        then (if k.variance_hist_collection_enabled then with_variance else with_send)
        else nic in
      if receiving
      then allocate_nic_bw_aggregation_stats k.bw_burst_count p nccl_nic_recv sent
      else sent

  -- By how much the bandwidth falls short of the target, where the load would have reached it.
  pub bandwidth_variance : ℕ → D → ℕ → D → D
  bandwidth_variance bucket_time target offered_load_bytes nic_bw =
      let expected_load_in_bits =
        o.to_nat (o.div (o.mul target (o.of_nat bucket_time)) (o.of_nat 1000)) in
      if leb expected_load_in_bits (mul_u64 offered_load_bytes 8) && o.lt nic_bw target
      then o.sub target nic_bw
      else o.of_nat 0

  abbrev pub submit_if_positive : Option (Bucketer D) → D → Option (Option (Bucketer D))
  submit_if_positive b v = if o.lt (o.of_nat 0) v then submit_to_pointer b v else some b

  pub detect_and_update_variance_histograms :
      Constants D → D → NicStats D → D → ℕ → D → Option (NicStats D)
  detect_and_update_variance_histograms k target nic nic_bw offered_load_bytes latency_in_ns = do
    b ←
        submit_if_positive nic.nic_bw_variance_stats
          (bandwidth_variance k.bw_bucket_time_in_milliseconds target offered_load_bytes nic_bw)
    l ←
        submit_if_positive nic.nic_latency_variance_stats
          (latency_variance k.baseline_latency_in_ns target offered_load_bytes latency_in_ns)
    some (record nic { nic_bw_variance_stats = b; nic_latency_variance_stats = l })

  -- The bytes that fit into a bucket, and those that go over to the next.
  unfoldable pub limit_bytes : D → D → D × D
  limit_bytes max_bytes_per_bucket bytes_in_bucket =
      if o.lt max_bytes_per_bucket bytes_in_bucket
      then (max_bytes_per_bucket, o.sub bytes_in_bucket max_bytes_per_bucket)
      else (bytes_in_bucket, o.of_nat 0)

  abbrev pub detect_if : Bool → Constants D → D → NicStats D → D → ℕ → Option (NicStats D)
  detect_if false k target nic bw i = some nic
  detect_if true k target nic bw i = do
    load ← get_elem? nic.offered_load.at_0 i
    latency ← get_elem? nic.latency i
    detect_and_update_variance_histograms k target nic bw load latency

  -- One round of the loop of `calculateAndUpdateHistogram`.
  pub smooth_bucket : Constants D → Rates D → ℕ → ℕ → D × NicStats D → Option (D × NicStats D)
  smooth_bucket k rates direction i (carry_over_bytes, nic) = do
    x ← get_elem? (at nic.nic_bw direction) i
    let (bytes, carry) = limit_bytes rates.max_bytes_per_bucket (o.add x carry_over_bytes)
    vec ← update (at nic.nic_bw direction) i (λ _. bytes)
    let bw = calculate_bw_per_bucket_in_bits_per_sec bytes k.bw_bucket_time_in_milliseconds
    let nic' : NicStats D = record nic { nic_bw = put nic.nic_bw direction vec }
    detected ←
        detect_if (k.variance_hist_collection_enabled && direction == nccl_nic_send) k
          rates.target_bw_per_nic_in_bits_per_sec nic' bw i
    b ← submit_to_pointer (at detected.nic_bw_stats direction) bw
    some (carry, record detected { nic_bw_stats = put detected.nic_bw_stats direction b })

  -- `calculateAndUpdateHistogram` on the bytes carried over, a NIC and the millisecond output.
  pub calculate_and_update_histogram :
      Constants D
      → Rates D
      → ℕ
      → ℕ
      → D × NicStats D × MsecBandwidth D
      → Option (D × NicStats D × MsecBandwidth D)
  calculate_and_update_histogram k rates unused_buckets direction (carry_over_bytes, nic, msec) = do
    let end =
        get_bw_vec_valid_limit k.carry_over_buckets unused_buckets
          (length (at nic.nic_bw direction))
    (carry, nic') ← for_range end 0 (smooth_bucket k rates direction) (carry_over_bytes, nic)
    let samples = take end (at nic'.nic_bw direction)
    msec' ←
        if k.msec_bw_output_enabled
        then copy_over_bandwidth_stats direction nic'.nic_ip samples msec
        else some msec
    some (
      carry,
      record nic' {
        nic_bw = put nic'.nic_bw direction (zeros_like (at nic'.nic_bw direction));
        offered_load =
            put nic'.offered_load direction (map (λ _. 0) (at nic'.offered_load direction));
      },
      msec',
    )

  -- A direction of a NIC, where it has a histogram.
  abbrev pub calculate_if :
      Option (Bucketer D)
      → Constants D
      → Rates D
      → ℕ
      → ℕ
      → D × NicStats D × MsecBandwidth D
      → Option (D × NicStats D × MsecBandwidth D)
  calculate_if none k rates unused_buckets direction s = some s
  calculate_if (some _) k rates unused_buckets direction s =
      calculate_and_update_histogram k rates unused_buckets direction s

  -- One entry of the loop of `aggregateNicStatsinHistogram`.
  pub aggregate_nic :
      Constants D
      → Rates D
      → ℕ
      → D × NicStats D × MsecBandwidth D
      → Option (D × NicStats D × MsecBandwidth D)
  aggregate_nic k rates unused_buckets (carry_over_bytes, nic, msec) = do
    sent ←
        calculate_if nic.nic_bw_stats.at_0 k rates unused_buckets nccl_nic_send
          (carry_over_bytes, nic, msec)
    calculate_if nic.nic_bw_stats.at_1 k rates unused_buckets nccl_nic_recv sent

  -- `aggregateNicStatsinHistogram`, in the order in which the map is run through.
  pub aggregate_nic_stats_in_histogram :
      Constants D
      → Rates D
      → ℕ
      → D × List (String × NicStats D) × MsecBandwidth D
      → Option (D × List (String × NicStats D) × MsecBandwidth D)
  aggregate_nic_stats_in_histogram k rates unused_buckets (carry, [], msec) = some (carry, [], msec)
  aggregate_nic_stats_in_histogram k rates unused_buckets (carry, (ip, nic) ∷ nics, msec) = do
    (carry', nic', msec') ← aggregate_nic k rates unused_buckets (carry, nic, msec)
    (last, nics', msec'') ←
        aggregate_nic_stats_in_histogram k rates unused_buckets (carry', nics, msec')
    some (last, (ip, nic') ∷ nics', msec'')

  -- `zeroOutNicStats`, for one NIC.
  pub zero_out_nic : NicStats D → NicStats D
  zero_out_nic nic = record nic {
    nic_bw = record { at_0 = zeros_like nic.nic_bw.at_0; at_1 = zeros_like nic.nic_bw.at_1 };
    offered_load = record {
      at_0 = map (λ _. 0) nic.offered_load.at_0;
      at_1 = map (λ _. 0) nic.offered_load.at_1;
    };
    latency = zeros_like nic.latency;
  }
