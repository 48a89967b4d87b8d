-- ===== src/Connection/Interval/Directions.antt =====
-- src/nccl_stats_aggregator.cc: the two calls of `aggregateBWStatsFromLastInterval` that
-- `processHighFrequencyTelemetry` makes for a connection, send first. Each zeroes the vectors of both
-- directions, so that the second finds no bytes.
use gpuviz.Base.{
  ℕ, ◌+◌, ◌<◌, ◌≡◌, refl, ap, ◌∙◌, Bool, some, List, map, length-map, get_or, get_or-map, arith,
  lt→ltb,
}
use gpuviz.Base.Words.{add_u64, u64_mod}
use gpuviz.Double.{DoubleOps}
use gpuviz.Bucketer.{Bucketer, submit_all}
use gpuviz.Stats.Idx
use gpuviz.Connection.{
  at, put, BwStats, Connection, nccl_send, nccl_recv, DistributionMap, get_bw_distribution_type,
  get_current_write_distribution_map_index, get_current_bw_read_index_unlocked,
}
use gpuviz.Connection.Shape.{HasSize, IsSized, at-HasSize, put-HasSize, at-put}
use gpuviz.Connection.Histograms.{Holds}
use gpuviz.Connection.Interval.Swap.{read_half}
use gpuviz.Connection.Interval.Sums.{
  IsSum, NicHasSize, limit_of, takes_latency, bandwidths, IsAggregated, aggregate-IsAggregated,
}
use gpuviz.Connection.Interval.{
  NicVectors, zeros_like, zero_out_bw_read_stats, aggregate_bw_stats_in_histogram,
  aggregate_bw_stats_from_last_interval,
}

module _ {D : Type 0} ⦃o : DoubleOps D⦄ where
  zero_out-HasSize :
      (n : ℕ) (v : Bool) (s : BwStats D) → HasSize n v s → HasSize n v (zero_out_bw_read_stats s)
  unfolding zero_out_bw_read_stats
  zero_out-HasSize n v s h = record {
    send = length-map s.bw.at_0 (λ _. o.of_nat 0) ∙ h.send;
    recv = length-map s.bw.at_1 (λ _. o.of_nat 0) ∙ h.recv;
    send_load = length-map s.offered_load.at_0 (λ _. 0) ∙ h.send_load;
    recv_load = length-map s.offered_load.at_1 (λ _. 0) ∙ h.recv_load;
    latency = h.latency;
  }

  -- The connection with the half `i` zeroed.
  abbrev pub zeroed : Connection D → ℕ → Connection D
  zeroed c i = record c { bw_stats = put c.bw_stats i (zero_out_bw_read_stats (at c.bw_stats i)) }

  pub zeroed-IsSized : (n : ℕ) (c : Connection D) (i : ℕ) → IsSized n c → IsSized n (zeroed c i)
  zeroed-IsSized n c i z =
      let v = c.variance_hist_collection_enabled in
      let sizes =
        put-HasSize n v c.bw_stats i _ z.half_0 z.half_1
          (zero_out-HasSize n v (at c.bw_stats i) (at-HasSize n c i z)) in
      record { half_0 = sizes.0; half_1 = sizes.1; carried = z.carried; fits = z.fits }

  pub IsSized-kept :
      (n : ℕ) (c c' : Connection D)
      → c'.bw_stats ≡ c.bw_stats
      → c'.config ≡ c.config
      → IsSized n c
      → IsSized n c'
  IsSized-kept n c c' e f z = record {
    half_0 = rw (e, f) z.half_0;
    half_1 = rw (e, f) z.half_1;
    carried = rw f z.carried;
    fits = z.fits;
  }

  -- The recv bytes of the half, once zeroed.
  zero_bw : (s : BwStats D) → (zero_out_bw_read_stats s).bw.at_1 ≡ zeros_like s.bw.at_1
  unfolding zero_out_bw_read_stats
  zero_bw s = refl

  zero_load :
      (s : BwStats D)
      → (zero_out_bw_read_stats s).offered_load.at_1 ≡ map (λ _. 0) s.offered_load.at_1
  unfolding zero_out_bw_read_stats
  zero_load s = refl

  -- What a call leaves: the connection after the aggregation, with the half that was read zeroed.
  pub from_last_interval :
      (c : Connection D) (direction unused : ℕ) (nic nic' : NicVectors D) (c' : Connection D)
      → aggregate_bw_stats_in_histogram c
          (get_current_bw_read_index_unlocked c)
          direction
          nic
          unused
        ≡ some (nic', c')
      → aggregate_bw_stats_from_last_interval c direction nic unused
        ≡ some (nic', zeroed c' (get_current_bw_read_index_unlocked c))
  unfolding aggregate_bw_stats_from_last_interval
  from_last_interval c direction unused nic nic' c' e = rw e

  read_index_kept :
      (c c' : Connection D)
      → c'.generation_bw_for_reporter_read ≡ c.generation_bw_for_reporter_read
      → get_current_bw_read_index_unlocked c' ≡ get_current_bw_read_index_unlocked c
  unfolding get_current_bw_read_index_unlocked
  read_index_kept c c' e = rw e

  write_index_kept :
      (c c' : Connection D)
      → c'.generation_for_reporter_read ≡ c.generation_for_reporter_read
      → get_current_write_distribution_map_index c' ≡ get_current_write_distribution_map_index c
  unfolding get_current_write_distribution_map_index
  write_index_kept c c' e = rw e

  -- After the first call the half that is read is the same one, with every byte and load zero.
  read_half-zeroed :
      (c c' : Connection D)
      → c'.generation_bw_for_reporter_read ≡ c.generation_bw_for_reporter_read
      → c'.bw_stats ≡ c.bw_stats
      → read_half (zeroed c' (get_current_bw_read_index_unlocked c))
        ≡ zero_out_bw_read_stats (read_half c)
  read_half-zeroed c c' g e =
      let i = get_current_bw_read_index_unlocked c in
      let same : get_current_bw_read_index_unlocked (zeroed c' i) ≡ i =
        read_index_kept c (zeroed c' i) g in
      rw (same, at-put c'.bw_stats i (zero_out_bw_read_stats (at c'.bw_stats i)))
        (ap (λ t. zero_out_bw_read_stats (at t i)) e)

  -- The histogram of the connection that is being written.
  abbrev pub open_map : Connection D → DistributionMap D
  open_map c = at c.distribution_map (get_current_write_distribution_map_index c)

  -- What the second call is given: its bytes and loads are all zero.
  second_call :
      (n : ℕ) (c c' : Connection D) (unused : ℕ) (b br : Bucketer D)
      (nic nic' nic_recv : NicVectors D)
      → IsSized n c
      → unused + c.carry_over_buckets < u64_mod
      → NicHasSize n c.variance_hist_collection_enabled nic_recv
      → Holds (open_map c) Idx.recv_bandwidth br
      → IsAggregated (read_half c) n nccl_send Idx.send_bandwidth unused b nic nic' c c'
      → let c1 = zeroed c' (get_current_bw_read_index_unlocked c) in
        (nic_recv' : NicVectors D) × (c2 : Connection D) × (aggregate_bw_stats_in_histogram c1
            (get_current_bw_read_index_unlocked c1)
            nccl_recv
            nic_recv
            unused
          ≡ some (nic_recv', c2))
        × IsAggregated
            (read_half c1)
            n
            nccl_recv
            Idx.recv_bandwidth
            unused
            br
            nic_recv
            nic_recv'
            c1
            c2
  unfolding get_bw_distribution_type
  second_call n c c' unused b br nic nic' nic_recv z hu hn hb a =
      let i = get_current_bw_read_index_unlocked c in
      let c1 = zeroed c' i in
      aggregate-IsAggregated n c1 (get_current_bw_read_index_unlocked c1) nccl_recv
        Idx.recv_bandwidth unused br nic_recv
        (zeroed-IsSized n c' i (IsSized-kept n c c' a.bw_kept a.config_kept z))
        (rw a.config_kept hu) refl (rw a.config_kept hn)
        (rw (write_index_kept c' c1 refl, write_index_kept c c' a.hist_kept)
          (a.others.others Idx.recv_bandwidth (omega arith) ∙ hb))

  -- The samples that the code submits for `n` zeroed buckets.
  pub bandwidths_of_zeros : ℕ → ℕ → List D → List D
  bandwidths_of_zeros bucket_time n bw = bandwidths bucket_time n (zeros_like bw)

  zero_sums :
      (n unused : ℕ) (c c1 c2 : Connection D) (half s : BwStats D) (b : Bucketer D)
      (nic nic' : NicVectors D)
      → s ≡ zero_out_bw_read_stats half
      → c1.config ≡ c.config
      → IsAggregated s n nccl_recv Idx.recv_bandwidth unused b nic nic' c1 c2
      → (j : ℕ) → j < limit_of c n unused
      → let z = o.of_nat 0 in
        (get_or nic'.bw j z ≡ o.add (get_or nic.bw j z) z)
        × (get_or nic'.offered_load j 0 ≡ add_u64 (get_or nic.offered_load j 0) 0)
  zero_sums n unused c c1 c2 half s b nic nic' e f a j h =
      let z = o.of_nat 0 in
      let inside : j < limit_of c1 n unused = rw f h in
      let no_bytes : get_or s.bw.at_1 j z ≡ z =
        rw (e, zero_bw half) (get_or-map (λ _. z) half.bw.at_1 j z) in
      let no_load : get_or s.offered_load.at_1 j 0 ≡ 0 =
        rw (e, zero_load half) (get_or-map (λ _. 0) half.offered_load.at_1 j 0) in
      (
        a.sum.bw_sum j ∙ rw (lt→ltb j (limit_of c1 n unused) inside, no_bytes),
        a.sum.load_sum j ∙ rw (lt→ltb j (limit_of c1 n unused) inside, no_load),
      )

  zero_histogram :
      (n unused i : ℕ) (c c1 c2 : Connection D) (half s : BwStats D) (b : Bucketer D)
      (nic nic' : NicVectors D)
      → s ≡ zero_out_bw_read_stats half
      → c1.config ≡ c.config
      → IsAggregated s n nccl_recv Idx.recv_bandwidth unused b nic nic' c1 c2
      → Holds (open_map (zeroed c2 i)) Idx.recv_bandwidth (
          submit_all b (
            bandwidths_of_zeros c.bw_bucket_time_in_milliseconds
              (limit_of c n unused)
              half.bw.at_1))
  unfolding bandwidths_of_zeros
  zero_histogram n unused i c c1 c2 half s b nic nic' e f a =
      rw
        (
          write_index_kept c2 (zeroed c2 i) refl,
          write_index_kept c1 c2 a.hist_kept,
          ← f,
          ← zero_bw half,
          ← e,
        )
        a.histogram

  -- In the two calls for a connection, send first, the bytes sent are aggregated as they should be,
  -- and the bytes received are lost: to the receive vectors of the NIC, zeros are added, whatever the
  -- connection has received, and each bucket counts in the receive histogram with no bytes.
  pub receive_bytes_lost :
      (n : ℕ) (c : Connection D) (unused : ℕ) (bs br : Bucketer D) (nic nic_recv : NicVectors D)
      → IsSized n c
      → unused + c.carry_over_buckets < u64_mod
      → NicHasSize n c.variance_hist_collection_enabled nic
      → NicHasSize n c.variance_hist_collection_enabled nic_recv
      → Holds (open_map c) Idx.send_bandwidth bs
      → Holds (open_map c) Idx.recv_bandwidth br
      → (nic' : NicVectors D) × (c1 : Connection D) × (nic_recv' : NicVectors D) × (c2 : Connection
          D)
        × (aggregate_bw_stats_from_last_interval c nccl_send nic unused ≡ some (nic', c1))
        × (aggregate_bw_stats_from_last_interval c1 nccl_recv nic_recv unused
            ≡ some (nic_recv', c2))
        × IsSum
            (read_half c).bw.at_0
            (read_half c).offered_load.at_0
            (read_half c).latency
            (takes_latency c nccl_send)
            (limit_of c n unused)
            nic
            nic'
        × ((j : ℕ)
            → j < limit_of c n unused
            → let z = o.of_nat 0 in
              (get_or nic_recv'.bw j z ≡ o.add (get_or nic_recv.bw j z) z)
              × (get_or nic_recv'.offered_load j 0 ≡ add_u64 (get_or nic_recv.offered_load j 0) 0))
        × Holds (open_map c2) Idx.recv_bandwidth (
            submit_all br (
              bandwidths_of_zeros c.bw_bucket_time_in_milliseconds
                (limit_of c n unused)
                (read_half c).bw.at_1))
  unfolding get_bw_distribution_type bandwidths_of_zeros
  receive_bytes_lost n c unused bs br nic nic_recv z hu hn hr hs hb =
      let i = get_current_bw_read_index_unlocked c in
      let first =
        aggregate-IsAggregated n c i nccl_send Idx.send_bandwidth unused bs nic z hu refl hn hs in
      let c' = first.1 in
      let a = first.3 in
      let second = second_call n c c' unused bs br nic first.0 nic_recv z hu hr hb a in
      let c1 = zeroed c' i in
      let half = read_half-zeroed c c' a.generation_kept a.bw_kept in
      let b = second.3 in
      (
        first.0,
        c1,
        second.0,
        zeroed second.1 (get_current_bw_read_index_unlocked c1),
        from_last_interval c nccl_send unused nic first.0 c' first.2,
        from_last_interval c1 nccl_recv unused nic_recv second.0 second.1 second.2,
        a.sum,
        λ j h.
            zero_sums n unused c c1 second.1 (read_half c) (read_half c1) br nic_recv second.0 half
              a.config_kept b j h,
        zero_histogram n unused (get_current_bw_read_index_unlocked c1) c c1 second.1 (read_half c)
            (read_half c1) br nic_recv second.0 half a.config_kept b,
      )
