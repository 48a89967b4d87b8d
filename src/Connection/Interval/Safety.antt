-- ===== src/Connection/Interval/Safety.antt =====
-- src/nccl_stats_aggregator.cc: the steps of the end of an interval do not fault, and keep what they ask
-- of a connection.
use gpuviz.Base.{
  ℕ, ◌+◌, ◌<◌, ◌≤◌, ◌≡◌, ◌∙◌, refl, sym, ap, Bool, true, some, List, get_or, length, length-map,
  arith, Bool-cases, inl, inr,
}
use gpuviz.Base.Words.{u64_mod}
use gpuviz.Base.Faults.{value, for_range_inv, get_elem?_lem}
use gpuviz.Double.{DoubleOps}
use gpuviz.Bucketer
use gpuviz.Bucketer.{Bucketer}
use gpuviz.Stats.Idx
use gpuviz.Connection.{
  at, put, Connection, DistributionMap, get_bw_distribution_type,
  get_current_write_distribution_map_index, get_current_bw_read_index_unlocked,
  get_bw_vec_valid_limit,
}
use gpuviz.Connection.Shape.{HasSize, at-HasSize, put-HasSize, at-put}
use gpuviz.Connection.Histograms.{Holds, submit_to-Holds}
use gpuviz.Connection.Interval.{
  NicVectors, swap_state_for_bw_stats_and_initialize_time, aggregate_bw_stats_from_last_interval,
  aggregate_variance_stats, variance_bucket, latency_variance, zero_out_latency_stats,
}
use gpuviz.Connection.Interval.Swap.{swap-IsSwapped, get_bw_vec_valid_limit_lem}
use gpuviz.Connection.Interval.Sums.{NicHasSize, aggregate-IsAggregated}
use gpuviz.Connection.Interval.Directions.{zeroed, zeroed-IsSized, IsSized-kept, from_last_interval}
use gpuviz.Connection.Interval.Ready.{
  HasBandwidth, IsReady, HasBandwidth-after, at-HasBandwidth, put-HasBandwidth,
}

module _ {D : Type 0} where
  -- The swap.
  pub swap-IsReady :
      (d : D) (n carry : ℕ) (w : ℕ → Bool) (v : Bool) (c : Connection D) (start unused : ℕ)
      → IsReady n carry w v c
      → unused + carry < u64_mod
      → (c' : Connection D) × (swap_state_for_bw_stats_and_initialize_time c start unused ≡ some c')
        × IsReady n carry w v c'
        × (c'.config ≡ c.config)
  swap-IsReady d n carry w v c start unused r h =
      let (c', e, s, z, _, _) =
        swap-IsSwapped d n c start unused r.mirrored r.bounded r.sized (rw r.same_carry h) in
      (
        c',
        e,
        record {
          mirrored = s.mirrored;
          bounded = s.bounded;
          sized = z;
          hist_0 = rw s.histograms r.hist_0;
          hist_1 = rw s.histograms r.hist_1;
          same_variance =
              ap (λ k. k.variance_hist_collection_enabled) s.config_kept ∙ r.same_variance;
          same_carry = ap (λ k. k.carry_over_buckets) s.config_kept ∙ r.same_carry;
          collecting = ap (λ k. k.bw_hist_collection_enabled) s.config_kept ∙ r.collecting;
        },
        s.config_kept,
      )

module _ {D : Type 0} ⦃o : DoubleOps D⦄ where
  -- One direction.
  pub aggregate-IsReady :
      (n carry : ℕ) (w : ℕ → Bool) (v : Bool) (c : Connection D) (direction bw_type unused : ℕ)
      (nic : NicVectors D) (b : Bucketer D)
      → IsReady n carry w v c
      → unused + carry < u64_mod
      → get_bw_distribution_type direction ≡ value bw_type
      → NicHasSize n v nic
      → Holds (at c.distribution_map (get_current_write_distribution_map_index c)) bw_type b
      → (nic' : NicVectors D) × (c' : Connection D) × (aggregate_bw_stats_from_last_interval c
            direction nic unused
          ≡ some (nic', c'))
        × NicHasSize n v nic'
        × IsReady n carry w v c'
        × (c'.config ≡ c.config)
  aggregate-IsReady n carry w v c direction bw_type unused nic b r h t z hb =
      let i = get_current_bw_read_index_unlocked c in
      let wi = get_current_write_distribution_map_index c in
      let (nic', c', e, a) =
        aggregate-IsAggregated n c i direction bw_type unused b nic r.sized (rw r.same_carry h) t
          (rw r.same_variance z) hb in
      let (m, em) = a.maps in
      let here : at c'.distribution_map wi ≡ m =
        ap (λ q. at q wi) em ∙ at-put c.distribution_map wi m in
      let held =
        HasBandwidth-after w v (at c.distribution_map wi) (at c'.distribution_map wi) bw_type _
          a.histogram a.others (at-HasBandwidth w v c.distribution_map wi r.hist_0 r.hist_1) in
      let (h0, h1) =
        put-HasBandwidth w v c.distribution_map wi m r.hist_0 r.hist_1 (rw (← here) held) in
      (
        nic',
        zeroed c' i,
        from_last_interval c direction unused nic nic' c' e,
        record {
          bw = a.sum.bw_length ∙ z.bw;
          load = a.sum.load_length ∙ z.load;
          latency = λ q. a.sum.latency_length ∙ z.latency q;
        },
        record {
          mirrored = record {
            hist = a.hist_kept ∙ r.mirrored.hist ∙ sym a.generations_kept.0;
            bw = a.generation_kept ∙ r.mirrored.bw ∙ sym a.generations_kept.1;
          };
          bounded = omega (arith, a.generations_kept.1, r.bounded);
          sized = zeroed-IsSized n c' i (IsSized-kept n c c' a.bw_kept a.config_kept r.sized);
          hist_0 = rw em h0;
          hist_1 = rw em h1;
          same_variance =
              ap (λ k. k.variance_hist_collection_enabled) a.config_kept ∙ r.same_variance;
          same_carry = ap (λ k. k.carry_over_buckets) a.config_kept ∙ r.same_carry;
          collecting = ap (λ k. k.bw_hist_collection_enabled) a.config_kept ∙ r.collecting;
        },
        a.config_kept,
      )

  -- The loop of `aggregateVarianceStats`.
  variance_round :
      (w : ℕ → Bool) (v : Bool) (baseline target : D) (load : List ℕ) (latency : List D) (end : ℕ)
      → end ≤ length load
      → end ≤ length latency
      → v ≡ true
      → (i : ℕ) (m : DistributionMap D) → i < end
      → HasBandwidth w v m
      → (m' : DistributionMap D) × (variance_bucket baseline target load latency i m ≡ some m')
        × HasBandwidth w v m'
  variance_round w v baseline target load latency end hl ht hv i m h k =
      let x = get_or latency i (o.of_nat 0) in
      let n = get_or load i 0 in
      let y = latency_variance baseline target n x in
      let e1 = get_elem?_lem load i 0 (omega arith) in
      let e2 = get_elem?_lem latency i (o.of_nat 0) (omega arith) in
      let (b, hb) = k.latency hv in
      let (m', e, held, same) = submit_to-Holds m Idx.latency_variance y b hb in
      elim (Bool-cases (o.lt (o.of_nat 0) y)) [
        | inl pos ↦ (
          m',
          rw (e1, e2, pos) e,
          HasBandwidth-after w v m m' Idx.latency_variance (Bucketer.submit b y) held same k,
        )
        | inr not_pos ↦ (m, rw (e1, e2, not_pos) refl, k)
      ]

  zero_out_latency-HasSize :
      (n : ℕ) (v : Bool) (c : Connection D) (i : ℕ)
      → HasSize n v (at c.bw_stats i)
      → HasSize n v (zero_out_latency_stats (at c.bw_stats i))
  unfolding zero_out_latency_stats
  zero_out_latency-HasSize n v c i h = record {
    send = h.send;
    recv = h.recv;
    send_load = h.send_load;
    recv_load = h.recv_load;
    latency = λ e. length-map (at c.bw_stats i).latency (λ _. o.of_nat 0) ∙ h.latency e;
  }

  pub variance-IsReady :
      (n carry : ℕ) (w : ℕ → Bool) (v : Bool) (c : Connection D) (load : List ℕ) (unused : ℕ)
      → IsReady n carry w v c
      → unused + carry < u64_mod
      → v ≡ true
      → length load ≡ n
      → (c' : Connection D) × (aggregate_variance_stats c load unused ≡ some c')
        × IsReady n carry w v c'
        × (c'.config ≡ c.config)
  unfolding aggregate_variance_stats
  variance-IsReady n carry w v c load unused r h hv hl =
      let i = get_current_bw_read_index_unlocked c in
      let wi = get_current_write_distribution_map_index c in
      let size = at-HasSize n c i r.sized in
      let end = get_bw_vec_valid_limit c.carry_over_buckets unused (length load) in
      let limit =
        get_bw_vec_valid_limit_lem c.carry_over_buckets unused (length load) (rw r.same_carry h)
          (omega (arith, hl, r.sized.fits)) in
      let (m, e, k) =
        for_range_inv (λ i m. HasBandwidth w v m)
          (variance_bucket c.baseline_latency_in_ns c.target_bw_per_nic_in_bits_per_sec load
            (at c.bw_stats i).latency)
          end
          (variance_round w v c.baseline_latency_in_ns c.target_bw_per_nic_in_bits_per_sec load
            (at c.bw_stats i).latency end (omega (arith, limit))
            (omega (arith, limit, hl, size.latency (r.same_variance ∙ hv))) hv)
          end 0 (at c.distribution_map wi) (omega arith)
          (at-HasBandwidth w v c.distribution_map wi r.hist_0 r.hist_1) in
      let (h0, h1) = put-HasBandwidth w v c.distribution_map wi m r.hist_0 r.hist_1 k in
      let (z0, z1) =
        put-HasSize n c.variance_hist_collection_enabled c.bw_stats i
          (zero_out_latency_stats (at c.bw_stats i)) r.sized.half_0 r.sized.half_1
          (zero_out_latency-HasSize n c.variance_hist_collection_enabled c i size) in
      (
        record c {
          distribution_map = put c.distribution_map wi m;
          bw_stats = put c.bw_stats i (zero_out_latency_stats (at c.bw_stats i));
        },
        rw e refl,
        record {
          mirrored = record { hist = r.mirrored.hist; bw = r.mirrored.bw };
          bounded = r.bounded;
          sized = record {
            half_0 = z0;
            half_1 = z1;
            carried = r.sized.carried;
            fits = r.sized.fits;
          };
          hist_0 = h0;
          hist_1 = h1;
          same_variance = r.same_variance;
          same_carry = r.same_carry;
          collecting = r.collecting;
        },
        refl,
      )

  -- The two directions, in the order of the loop.
  pub aggregate_send-IsReady :
      (n carry : ℕ) (w : ℕ → Bool) (v : Bool) (c : Connection D) (unused : ℕ) (nic : NicVectors D)
      → IsReady n carry w v c
      → unused + carry < u64_mod
      → NicHasSize n v nic
      → (nic' : NicVectors D) × (c' : Connection D) × (aggregate_bw_stats_from_last_interval c 0 nic
            unused
          ≡ some (nic', c'))
        × NicHasSize n v nic'
        × IsReady n carry w v c'
        × (c'.config ≡ c.config)
  unfolding get_bw_distribution_type
  aggregate_send-IsReady n carry w v c unused nic r h z =
      let wi = get_current_write_distribution_map_index c in
      let (b, hb) = (at-HasBandwidth w v c.distribution_map wi r.hist_0 r.hist_1).send in
      aggregate-IsReady n carry w v c 0 Idx.send_bandwidth unused nic b r h refl z hb

  pub aggregate_recv-IsReady :
      (n carry : ℕ) (w : ℕ → Bool) (v : Bool) (c : Connection D) (unused : ℕ) (nic : NicVectors D)
      → IsReady n carry w v c
      → unused + carry < u64_mod
      → NicHasSize n v nic
      → (nic' : NicVectors D) × (c' : Connection D) × (aggregate_bw_stats_from_last_interval c 1 nic
            unused
          ≡ some (nic', c'))
        × NicHasSize n v nic'
        × IsReady n carry w v c'
        × (c'.config ≡ c.config)
  unfolding get_bw_distribution_type
  aggregate_recv-IsReady n carry w v c unused nic r h z =
      let wi = get_current_write_distribution_map_index c in
      let (b, hb) = (at-HasBandwidth w v c.distribution_map wi r.hist_0 r.hist_1).recv in
      aggregate-IsReady n carry w v c 1 Idx.recv_bandwidth unused nic b r h refl z hb
