-- ===== src/Connection/Interval/Missing.antt =====
-- src/nccl_stats_aggregator.cc, `aggregateBWStatsFromLastInterval`, for a NIC without a vector.
use gpuviz.Base.{
  ℕ, zero, suc, ◌+◌, ◌<◌, ◌≡◌, refl, Bool, false, ◌&&◌, ◌==◌, Option, none, List, [], length,
  get_elem?, inl, inr, Option-cases, arith,
}
use gpuviz.Base.Faults.{value, for_range}
use gpuviz.Stats.{mask, is_set}
use gpuviz.Stats.Idx
use gpuviz.Double.{DoubleOps}
use gpuviz.Connection.{
  Connection, DistributionMap, at, nccl_send, nccl_recv, is_bw_collection_enabled_in_bit_map,
  get_bw_distribution_type, get_bw_vec_valid_limit, get_current_bw_read_index_unlocked,
  get_current_write_distribution_map_index,
}
use gpuviz.Connection.Shape.{IsSized, at-HasSize}
use gpuviz.Connection.Interval.{
  NicVectors, aggregate_bucket, aggregate_bw_stats_in_histogram,
  aggregate_bw_stats_from_last_interval,
}
use gpuviz.Connection.Interval.Sums.{length-at}
use gpuviz.Connection.Interval.Swap.{get_bw_vec_valid_limit_lem}

loop_fault :
    {S : Type 0} (end : ℕ) (body : ℕ → S → Option S) (s : S)
    → 0 < end
    → body 0 s ≡ none
    → for_range end 0 body s ≡ none
unfolding for_range
loop_fault zero body s h e = absurd (omega arith)
loop_fault (suc n) body s h e = rw (e, for_range) refl

module _ {D : Type 0} ⦃o : DoubleOps D⦄ where
  abbrev without_vector : List ℕ → List D → NicVectors D
  without_vector load latency = record { bw = []; offered_load = load; latency = latency }

  bucket_fault :
      (bw : List D) (offered_load : List ℕ) (latency : List D) (wanted : Bool)
      (bucket_time bw_type i : ℕ) (load' : List ℕ) (latency' : List D) (m : DistributionMap D)
      → aggregate_bucket bw offered_load latency wanted bucket_time bw_type i
          (without_vector load' latency', m)
        ≡ none
  unfolding aggregate_bucket
  bucket_fault bw offered_load latency wanted bucket_time bw_type i load' latency' m =
      elim (Option-cases (get_elem? bw i)) [ inl e ↦ rw e refl | inr (x, e) ↦ rw e refl ]

  -- Where a bucket is to be aggregated, the NIC's vector is accessed past its end.
  pub missing_vector_faults :
      (n : ℕ) (c : Connection D) (direction bw_type unused : ℕ) (load : List ℕ) (latency : List D)
      → get_bw_distribution_type direction ≡ value bw_type
      → IsSized n c
      → unused + c.carry_over_buckets < n
      → aggregate_bw_stats_from_last_interval c direction (without_vector load latency) unused
        ≡ none
  unfolding aggregate_bw_stats_from_last_interval aggregate_bw_stats_in_histogram
  missing_vector_faults n c direction bw_type unused load latency t z h =
      let s = at c.bw_stats (get_current_bw_read_index_unlocked c) in
      let size =
        length-at n c.variance_hist_collection_enabled s direction
          (at-HasSize n c (get_current_bw_read_index_unlocked c) z) in
      let limit =
        get_bw_vec_valid_limit_lem c.carry_over_buckets unused (length (at s.bw direction))
          (omega (arith, z.fits)) (omega (arith, size.0, z.fits)) in
      let e =
        loop_fault (get_bw_vec_valid_limit c.carry_over_buckets unused (length (at s.bw direction)))
          (aggregate_bucket (at s.bw direction) (at s.offered_load direction) s.latency
            (c.variance_hist_collection_enabled && direction == nccl_send)
            c.bw_bucket_time_in_milliseconds bw_type)
          (
            without_vector load latency,
            at c.distribution_map (get_current_write_distribution_map_index c),
          )
          (omega (arith, limit, size.0))
          (bucket_fault (at s.bw direction) (at s.offered_load direction) s.latency
            (c.variance_hist_collection_enabled && direction == nccl_send)
            c.bw_bucket_time_in_milliseconds bw_type 0 load latency
            (at c.distribution_map (get_current_write_distribution_map_index c))) in
      rw (t, aggregate_bw_stats_in_histogram) (rw e refl)

pub recv_type : get_bw_distribution_type nccl_recv ≡ value Idx.recv_bandwidth
unfolding get_bw_distribution_type
recv_type = refl

-- The test of the receive direction fails.
pub no_recv_lem :
    (bitmap : ℕ)
    → (is_set bitmap (mask Idx.recv_latency_sw) && is_set bitmap (mask Idx.recv_message_size))
      ≡ false
    → is_bw_collection_enabled_in_bit_map bitmap
        (mask Idx.recv_latency_sw)
        (mask Idx.recv_message_size)
      ≡ false
unfolding is_bw_collection_enabled_in_bit_map
no_recv_lem bitmap h = h
