-- ===== src/Connection/Interval.antt =====
-- src/nccl_stats_aggregator.cc: what the reporter thread does to a connection at the end of a
-- high-frequency interval: `swapStateForBWstatsandInitializeTime`, then
-- `aggregateBWStatsFromLastInterval` for each direction, then `aggregateVarianceStats`.
pub mod Swap
pub mod Sums
pub mod Directions
pub mod Ready
pub mod Safety
pub mod Missing
use gpuviz.Base.{
  ℕ, ◌+◌, ◌%◌, Bool, true, false, Option, none, some, List, ltb, leb, ◌==◌, ◌&&◌, if◌then◌else◌,
  length, get_elem?, map, replicate,
}
use gpuviz.Base.Words.{add_u64, mul_u64}
use gpuviz.Base.Faults.{◌>>=◌, StatusOr, value, status, update, for_range}
use gpuviz.Double.{DoubleOps, fmax}
use gpuviz.Stats.Idx
use gpuviz.Connection.{
  Two, at, put, BwStats, DistributionMap, Connection, nccl_send, nccl_recv, submit_to,
  get_bw_distribution_type, get_bw_vec_valid_limit, calculate_bw_per_bucket_in_bits_per_sec,
  get_current_write_distribution_map_index, get_current_bw_write_index_unlocked,
  get_current_bw_read_index_unlocked,
}

-- The vectors of a NIC in one direction, which all its connections add to.
pub record NicVectors (D : Type 0) : Type 0 where
  pub bw : List D
  pub offered_load : List ℕ
  pub latency : List D

module _ {D : Type 0} where
  -- bw_vec_new[i] = bw_vec_old[i + start]
  abbrev pub carry_bucket : List D → ℕ → ℕ → List D → Option (List D)
  carry_bucket old start i new = do x ← get_elem? old (i + start); update new i (λ _. x)

  -- One direction of the carry-over loop, from the old vector to the new one.
  pub carry_over : ℕ → ℕ → List D → List D → Option (List D)
  carry_over carry_over_buckets unused_buckets old new =
      for_range carry_over_buckets 0
        (carry_bucket old (get_bw_vec_valid_limit carry_over_buckets unused_buckets (length old)))
        new

  -- The new generation, with the start time and the vectors of the half that is now written.
  pub next_generation : Connection D → ℕ → List D → List D → Connection D
  next_generation c start_time_milliseconds send recv =
      let generation_bw = add_u64 c.generation_bw 1 in
      record c {
        generation_bw = generation_bw;
        generation_bw_for_reporter_read = generation_bw;
        bw_stats = put c.bw_stats (generation_bw % 2) (record (at c.bw_stats (generation_bw % 2)) {
          start_time_milliseconds = start_time_milliseconds;
          bw = record { at_0 = send; at_1 = recv };
        });
      }

  pub swap_state_for_bw_stats_and_initialize_time : Connection D → ℕ → ℕ → Option (Connection D)
  unfolding next_generation carry_over
  swap_state_for_bw_stats_and_initialize_time c start_time_milliseconds unused_buckets = do
    let old = at c.bw_stats (get_current_bw_write_index_unlocked c)
    let new = at c.bw_stats (add_u64 c.generation_bw 1 % 2)
    send ← carry_over c.carry_over_buckets unused_buckets old.bw.at_0 new.bw.at_0
    recv ← carry_over c.carry_over_buckets unused_buckets old.bw.at_1 new.bw.at_1
    some (next_generation c start_time_milliseconds send recv)

module _ {D : Type 0} ⦃o : DoubleOps D⦄ where
  abbrev pub zeros_like : List D → List D
  zeros_like = map (λ _. o.of_nat 0)

  -- Both directions are zeroed, whichever was read.
  pub zero_out_bw_read_stats : BwStats D → BwStats D
  zero_out_bw_read_stats s = record s {
    bw = record { at_0 = zeros_like s.bw.at_0; at_1 = zeros_like s.bw.at_1 };
    offered_load = record {
      at_0 = map (λ _. 0) s.offered_load.at_0;
      at_1 = map (λ _. 0) s.offered_load.at_1;
    };
  }

  pub zero_out_latency_stats : BwStats D → BwStats D
  zero_out_latency_stats s = record s { latency = zeros_like s.latency }

  -- `nicLatencyVec[i] = max(nicLatencyVec[i], latency_vec[i])`, for the send direction alone.
  pub merge_latency : Bool → List D → ℕ → List D → Option (List D)
  merge_latency wanted latency i nic = elim wanted [
    | true ↦ (do x ← get_elem? latency i; update nic i (λ y. fmax y x))
    | false ↦ some nic
  ]

  -- One round of the loop over the buckets.
  pub aggregate_bucket :
      List D
      → List ℕ
      → List D
      → Bool
      → ℕ
      → ℕ
      → ℕ
      → NicVectors D × DistributionMap D
      → Option (NicVectors D × DistributionMap D)
  aggregate_bucket bw offered_load latency wanted bucket_time bw_type i (nic, map) = do
    x ← get_elem? bw i
    nic_bw ← update nic.bw i (λ y. o.add y x)
    n ← get_elem? offered_load i
    nic_load ← update nic.offered_load i (λ m. add_u64 m n)
    nic_latency ← merge_latency wanted latency i nic.latency
    map' ← submit_to map bw_type (calculate_bw_per_bucket_in_bits_per_sec x bucket_time)
    some (record { bw = nic_bw; offered_load = nic_load; latency = nic_latency }, map')

  -- `aggregateBWStatsinHistogram`.
  pub aggregate_bw_stats_in_histogram :
      Connection D → ℕ → ℕ → NicVectors D → ℕ → Option (NicVectors D × Connection D)
  unfolding aggregate_bucket merge_latency
  aggregate_bw_stats_in_histogram c state direction nic unused_buckets =
      elim (get_bw_distribution_type direction) [
        | status _ ↦ some (nic, c)
        | value bw_type ↦ (do
          let s = at c.bw_stats state
          let write_idx = get_current_write_distribution_map_index c
          let end =
              get_bw_vec_valid_limit c.carry_over_buckets unused_buckets
                (length (at s.bw direction))
          (nic', map) ←
              for_range end 0
                (aggregate_bucket (at s.bw direction) (at s.offered_load direction) s.latency
                  (c.variance_hist_collection_enabled && direction == nccl_send)
                  c.bw_bucket_time_in_milliseconds bw_type)
                (nic, at c.distribution_map write_idx)
          some (nic', record c { distribution_map = put c.distribution_map write_idx map }))
      ]

  pub aggregate_bw_stats_from_last_interval :
      Connection D → ℕ → NicVectors D → ℕ → Option (NicVectors D × Connection D)
  unfolding aggregate_bw_stats_in_histogram zero_out_bw_read_stats
  aggregate_bw_stats_from_last_interval c direction nic unused_buckets = do
    let state = get_current_bw_read_index_unlocked c
    (nic', c') ← aggregate_bw_stats_in_histogram c state direction nic unused_buckets
    some (
      nic',
      record c' {
        bw_stats = put c'.bw_stats state (zero_out_bw_read_stats (at c'.bw_stats state));
      },
    )

  -- By how much a latency exceeds what the offered load explains. The product is a `uint64_t`.
  pub latency_variance : D → D → ℕ → D → D
  latency_variance baseline target offered_load_in_bytes actual_latency_in_ns =
      let offered_load_in_bits = mul_u64 offered_load_in_bytes 8 in
      let queueing_delay = o.div (o.of_nat (mul_u64 offered_load_in_bits 1000000000)) target in
      let expected = o.add queueing_delay baseline in
      if o.lt expected actual_latency_in_ns then o.sub actual_latency_in_ns expected else o.of_nat 0

  abbrev pub variance_bucket :
      D → D → List ℕ → List D → ℕ → DistributionMap D → Option (DistributionMap D)
  variance_bucket baseline target nic_load latency i map = do
    n ← get_elem? nic_load i
    x ← get_elem? latency i
    let v = latency_variance baseline target n x
    if o.lt (o.of_nat 0) v then submit_to map Idx.latency_variance v else some map

  pub aggregate_variance_stats : Connection D → List ℕ → ℕ → Option (Connection D)
  unfolding latency_variance zero_out_latency_stats
  aggregate_variance_stats c nic_load unused_buckets = do
    let state = get_current_bw_read_index_unlocked c
    let write_idx = get_current_write_distribution_map_index c
    let end = get_bw_vec_valid_limit c.carry_over_buckets unused_buckets (length nic_load)
    map ←
        for_range end 0
          (variance_bucket c.baseline_latency_in_ns c.target_bw_per_nic_in_bits_per_sec nic_load
            (at c.bw_stats state).latency)
          (at c.distribution_map write_idx)
    some (record c {
      distribution_map = put c.distribution_map write_idx map;
      bw_stats = put c.bw_stats state (zero_out_latency_stats (at c.bw_stats state));
    })
