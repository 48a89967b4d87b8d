-- ===== src/Connection/Interval/Sums.antt =====
-- src/nccl_stats_aggregator.cc: what `aggregateBWStatsinHistogram` adds to a NIC and to a histogram.
use mathlib.Core.List.{map-append}
use gpuviz.Base.{
  and_left, ℕ, ◌+◌, ◌<◌, ◌≤◌, ◌≡◌, refl, ◌∙◌, Bool, true, false, ◌&&◌, some, List, map, length,
  get_or, take, modify, length-modify, take_snoc, arith, ltb, ◌==◌, inl, inr, Bool-cases,
  if◌then◌else◌,
}
use gpuviz.Base.Words.{add_u64, u64_mod}
use gpuviz.Base.Faults.{value, for_range, for_range_inv, update_lem, get_elem?_lem, get_or-modify}
use gpuviz.Double.{DoubleOps, fmax}
use gpuviz.Bucketer.{Bucketer, submit_all}
use gpuviz.Bucketer.Counts.{submit_all-snoc, submit_all-nil}
use gpuviz.Connection.{
  at, put, BwStats, Connection, nccl_send, DistributionMap, calculate_bw_per_bucket_in_bits_per_sec,
  get_bw_distribution_type, get_bw_vec_valid_limit, get_current_write_distribution_map_index,
}
use gpuviz.Connection.Shape.{HasSize, IsSized, at-HasSize, at-put}
use gpuviz.Connection.Interval.Swap.{get_bw_vec_valid_limit_lem}
use gpuviz.Connection.Histograms.{Holds, SameBut, SameBut-refl, SameBut-trans, submit_to-Holds}
use gpuviz.Connection.Interval.{
  NicVectors, aggregate_bucket, merge_latency, aggregate_bw_stats_in_histogram,
}

module _ {D : Type 0} ⦃o : DoubleOps D⦄ where
  merge_lem :
      (wanted : Bool) (latency : List D) (i : ℕ) (nic : List D)
      → (wanted ≡ true → i < length latency)
      → (wanted ≡ true → i < length nic)
      → (t : List D) × (merge_latency wanted latency i nic ≡ some t)
        × (length t ≡ length nic)
        × ((j : ℕ)
            → let z = o.of_nat 0 in
              get_or t j z ≡ (
                if wanted && i == j
                then fmax (get_or nic j z) (get_or latency i z)
                else get_or nic j z))
  unfolding merge_latency
  merge_lem true latency i nic h k =
      let z = o.of_nat 0 in
      let f : D → D = λ y. fmax y (get_or latency i z) in
      (
        modify nic i f,
        rw (get_elem?_lem latency i z (h refl)) (update_lem nic i f (k refl)),
        length-modify nic i f,
        λ j. get_or-modify nic i j f z (k refl),
      )
  merge_lem false latency i nic h k = (nic, refl, refl, λ j. refl)

  -- `nic'` is `nic` with the first `i` buckets of a connection added, bucket by bucket.
  pub record IsSum (bw : List D) (offered_load : List ℕ) (latency : List D) (wanted : Bool) (i : ℕ)
      (nic nic' : NicVectors D) : Type 0 where
    pub bw_length : length nic'.bw ≡ length nic.bw
    pub load_length : length nic'.offered_load ≡ length nic.offered_load
    pub latency_length : length nic'.latency ≡ length nic.latency
    pub bw_sum :
        (j : ℕ)
        → let z = o.of_nat 0 in
          get_or nic'.bw j z
          ≡ (if ltb j i then o.add (get_or nic.bw j z) (get_or bw j z) else get_or nic.bw j z)
    pub load_sum :
        (j : ℕ)
        → get_or nic'.offered_load j 0 ≡ (
            if ltb j i
            then add_u64 (get_or nic.offered_load j 0) (get_or offered_load j 0)
            else get_or nic.offered_load j 0)
    pub latency_max :
        (j : ℕ)
        → let z = o.of_nat 0 in
          get_or nic'.latency j z ≡ (
            if wanted && ltb j i
            then fmax (get_or nic.latency j z) (get_or latency j z)
            else get_or nic.latency j z)

  -- The bandwidth samples of the first `i` buckets, the oldest first.
  abbrev pub bandwidths : ℕ → ℕ → List D → List D
  bandwidths bucket_time i bw =
      map (λ x. calculate_bw_per_bucket_in_bits_per_sec x bucket_time) (take i bw)

  module _ (bw : List D) (offered_load : List ℕ) (latency : List D) (wanted : Bool)
      (bucket_time bw_type end : ℕ) where
    -- All vectors reach up to the limit.
    pub record Reaches (nic : NicVectors D) : Type 0 where
      pub bw_in : end ≤ length bw
      pub load_in : end ≤ length offered_load
      pub latency_in : wanted ≡ true → end ≤ length latency
      pub nic_bw_in : end ≤ length nic.bw
      pub nic_load_in : end ≤ length nic.offered_load
      pub nic_latency_in : wanted ≡ true → end ≤ length nic.latency

    -- After `i` rounds, started at `nic` and at `m`, which holds `b` as the bandwidth histogram.
    record Round (nic : NicVectors D) (m : DistributionMap D) (b : Bucketer D) (i : ℕ)
        (s : NicVectors D × DistributionMap D) : Type 0 where
      sum : IsSum bw offered_load latency wanted i nic s.0
      histogram : Holds s.1 bw_type (submit_all b (bandwidths bucket_time i bw))
      others : SameBut bw_type m s.1

    aggregate-Round :
        (nic : NicVectors D) (m : DistributionMap D) (b : Bucketer D)
        → Reaches nic
        → (i : ℕ) (s : NicVectors D × DistributionMap D) → i < end
        → Round nic m b i s
        → (t : NicVectors D × DistributionMap D) × (aggregate_bucket bw offered_load latency wanted
              bucket_time bw_type i s
            ≡ some t)
          × Round nic m b (i + 1) t
    unfolding aggregate_bucket
    aggregate-Round nic m b r i (nic', m') h c =
        let z = o.of_nat 0 in
        let x = get_or bw i z in
        let n = get_or offered_load i 0 in
        let f : D → D = λ y. o.add y x in
        let g : ℕ → ℕ = λ k. add_u64 k n in
        let merged =
          merge_lem wanted latency i nic'.latency (λ w. omega (arith, r.latency_in w))
            (λ w. omega (arith, r.nic_latency_in w, c.sum.latency_length)) in
        let sample = calculate_bw_per_bucket_in_bits_per_sec x bucket_time in
        let submitted =
          submit_to-Holds m' bw_type sample (submit_all b (bandwidths bucket_time i bw))
            c.histogram in
        (
          (
            record {
              bw = modify nic'.bw i f;
              offered_load = modify nic'.offered_load i g;
              latency = merged.0;
            },
            submitted.0,
          ),
          rw (
            get_elem?_lem bw i z (omega (arith, r.bw_in)),
            update_lem nic'.bw i f (omega (arith, r.nic_bw_in, c.sum.bw_length)),
            get_elem?_lem offered_load i 0 (omega (arith, r.load_in)),
            update_lem nic'.offered_load i g (omega (arith, r.nic_load_in, c.sum.load_length)),
            merged.1,
            submitted.1,
          ),
          record {
            sum = record {
              bw_length = length-modify nic'.bw i f ∙ c.sum.bw_length;
              load_length = length-modify nic'.offered_load i g ∙ c.sum.load_length;
              latency_length = merged.2 ∙ c.sum.latency_length;
              bw_sum = λ j. ground (
                arith,
                get_or-modify nic'.bw i j f z (omega (arith, r.nic_bw_in, c.sum.bw_length)),
                c.sum.bw_sum j,
              );
              load_sum = λ j. ground (
                arith,
                get_or-modify nic'.offered_load i j g 0
                    (omega (arith, r.nic_load_in, c.sum.load_length)),
                c.sum.load_sum j,
              );
              latency_max = λ j. ground (arith, merged.3 j, c.sum.latency_max j);
            };
            histogram =
                rw (take_snoc bw i z (omega (arith, r.bw_in)), map-append, submit_all-snoc)
                  submitted.2;
            others = SameBut-trans bw_type m m' submitted.0 c.others submitted.3;
          },
        )

    -- The whole loop.
    aggregate_loop :
        (nic : NicVectors D) (m : DistributionMap D) (b : Bucketer D)
        → Reaches nic
        → Holds m bw_type b
        → (t : NicVectors D × DistributionMap D) × (for_range end 0
              (aggregate_bucket bw offered_load latency wanted bucket_time bw_type)
              (nic, m)
            ≡ some t)
          × Round nic m b end t
    aggregate_loop nic m b r h =
        for_range_inv (Round nic m b)
          (aggregate_bucket bw offered_load latency wanted bucket_time bw_type) end
          (aggregate-Round nic m b r) end 0 (nic, m) (omega arith)
          (record {
            sum = record {
              bw_length = refl;
              load_length = refl;
              latency_length = refl;
              bw_sum = λ j. ground arith;
              load_sum = λ j. ground arith;
              latency_max = λ j. ground arith;
            };
            histogram = start;
            others = SameBut-refl bw_type m;
          })
      where
        start : Holds m bw_type (submit_all b (bandwidths bucket_time 0 bw))
        start = rw (submit_all-nil b) h

module _ {D : Type 0} where
  pub length-at :
      (n : ℕ) (v : Bool) (s : BwStats D) (direction : ℕ)
      → HasSize n v s
      → (length (at s.bw direction) ≡ n) × (length (at s.offered_load direction) ≡ n)
  length-at n v s direction h = elim (Bool-cases (direction == 0)) [
    | inl e ↦ rw e (h.send, h.send_load)
    | inr e ↦ rw e (h.recv, h.recv_load)
  ]

-- The vectors of a NIC are as long as those of its connections.
pub record NicHasSize {D : Type 0} (n : ℕ) (variance : Bool) (nic : NicVectors D) : Type 0 where
  pub bw : length nic.bw ≡ n
  pub load : length nic.offered_load ≡ n
  pub latency : variance ≡ true → length nic.latency ≡ n

module _ {D : Type 0} ⦃o : DoubleOps D⦄ where
  abbrev pub limit_of : Connection D → ℕ → ℕ → ℕ
  limit_of c n unused = get_bw_vec_valid_limit c.carry_over_buckets unused n

  abbrev pub takes_latency : Connection D → ℕ → Bool
  takes_latency c direction = c.variance_hist_collection_enabled && direction == nccl_send

  -- `(nic', c')` is `(nic, c)` after the vectors of one direction of the half `s` were added to the
  -- NIC and to the bandwidth histogram `b`.
  pub record IsAggregated (s : BwStats D) (n direction bw_type unused : ℕ) (b : Bucketer D)
      (nic nic' : NicVectors D) (c c' : Connection D) : Type 0 where
    pub sum :
        IsSum
          (at s.bw direction)
          (at s.offered_load direction)
          s.latency
          (takes_latency c direction)
          (limit_of c n unused)
          nic
          nic'
    pub histogram :
        Holds (at c'.distribution_map (get_current_write_distribution_map_index c)) bw_type (
          submit_all b
            (bandwidths c.bw_bucket_time_in_milliseconds (limit_of c n unused) (at s.bw direction)))
    pub others :
        SameBut bw_type
          (at c.distribution_map (get_current_write_distribution_map_index c))
          (at c'.distribution_map (get_current_write_distribution_map_index c))
    pub maps :
        (m : DistributionMap D) × (c'.distribution_map
          ≡ put c.distribution_map (get_current_write_distribution_map_index c) m)
    pub generations_kept : (c'.generation ≡ c.generation) × (c'.generation_bw ≡ c.generation_bw)
    pub bw_kept : c'.bw_stats ≡ c.bw_stats
    pub config_kept : c'.config ≡ c.config
    pub hist_kept : c'.generation_for_reporter_read ≡ c.generation_for_reporter_read
    pub generation_kept : c'.generation_bw_for_reporter_read ≡ c.generation_bw_for_reporter_read

  -- Where the NIC's vectors have the size of the connection's and the bandwidth histogram is there,
  -- the aggregation of a direction does not fault. Bucket by bucket up to the limit it adds the bytes
  -- and the loads and, for the send direction, keeps the larger latency; it submits the bandwidth of
  -- each of these buckets to the histogram of the direction, in order; all else is kept.
  pub aggregate-IsAggregated :
      (n : ℕ) (c : Connection D) (state direction bw_type unused : ℕ) (b : Bucketer D)
      (nic : NicVectors D)
      → IsSized n c
      → unused + c.carry_over_buckets < u64_mod
      → get_bw_distribution_type direction ≡ value bw_type
      → NicHasSize n c.variance_hist_collection_enabled nic
      → Holds (at c.distribution_map (get_current_write_distribution_map_index c)) bw_type b
      → (nic' : NicVectors D) × (c' : Connection D) × (aggregate_bw_stats_in_histogram c state
            direction nic unused
          ≡ some (nic', c'))
        × IsAggregated (at c.bw_stats state) n direction bw_type unused b nic nic' c c'
  unfolding aggregate_bw_stats_in_histogram
  aggregate-IsAggregated n c state direction bw_type unused b nic z hu ht hn hb =
      let s = at c.bw_stats state in
      let size = at-HasSize n c state z in
      let w = get_current_write_distribution_map_index c in
      let len = length-at n c.variance_hist_collection_enabled s direction size in
      let limit_eq = get_bw_vec_valid_limit_lem c.carry_over_buckets unused n hu z.fits in
      let loop =
        aggregate_loop (at s.bw direction) (at s.offered_load direction) s.latency
          (takes_latency c direction) c.bw_bucket_time_in_milliseconds bw_type (limit_of c n unused)
          nic (at c.distribution_map w) b
          (record {
            bw_in = omega (arith, limit_eq, len.0);
            load_in = omega (arith, limit_eq, len.1);
            latency_in = λ h. omega (arith, limit_eq, size.latency (and_left _ _ h));
            nic_bw_in = omega (arith, limit_eq, hn.bw);
            nic_load_in = omega (arith, limit_eq, hn.load);
            nic_latency_in = λ h. omega (arith, limit_eq, hn.latency (and_left _ _ h));
          })
          hb in
      (
        loop.0.0,
        record c { distribution_map = put c.distribution_map w loop.0.1 },
        rw (ht, aggregate_bw_stats_in_histogram) (rw (len.0, loop.1)),
        record {
          sum = loop.2.sum;
          histogram = rw (at-put c.distribution_map w loop.0.1) loop.2.histogram;
          others = rw (at-put c.distribution_map w loop.0.1) loop.2.others;
          maps = (loop.0.1, refl);
          generations_kept = (refl, refl);
          bw_kept = refl;
          config_kept = refl;
          hist_kept = refl;
          generation_kept = refl;
        },
      )
