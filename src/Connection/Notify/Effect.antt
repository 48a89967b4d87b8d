-- ===== src/Connection/Notify/Effect.antt =====
-- src/nccl_stats_aggregator.cc: what `updateBwAndLatencyStats` writes.
use Prim.Native.Nat.{◌-◌}
use gpuviz.Base.{
  ℕ, ◌+◌, ◌<◌, ◌≤◌, ◌≡◌, ◌≢◌, refl, ◌∙◌, Bool, true, false, ◌&&◌, some, List, length, length-modify,
  modify, get_or, arith, ltb, leb, ◌==◌, if◌then◌else◌, inl, inr, Bool-cases, leb→le, ==→eq,
}
use gpuviz.Base.Words.{add_u64, sub_u64, u64_mod}
use gpuviz.Base.Faults.{for_range, for_range_inv, update_lem, get_or-modify}
use gpuviz.Double.{DoubleOps, fmax}
use gpuviz.Connection.{at, put, BwStats, Connection}
use gpuviz.Connection.Shape.{HasSize, put_vectors-HasSize, at-put}
use gpuviz.Connection.Interval.Sums.{length-at, takes_latency}
use gpuviz.Base.{and_left}
use gpuviz.Connection.Notify.{
  start_idx, end_idx, add_to_bucket, update_latency, spread, update_bw_and_latency_stats,
}
use gpuviz.Connection.Notify.Window.{end_idx-le}

last_bucket : (n : ℕ) → 0 < n → n < u64_mod → sub_u64 n 1 ≡ n - 1
last_bucket n h k = omega arith

module _ {D : Type 0} ⦃o : DoubleOps D⦄ where
  -- After the rounds below `i` of the loop that starts at `start`.
  record Filled (bytes : D) (sz n start : ℕ) (v : List D × List ℕ) (i : ℕ) (t : List D × List ℕ)
      : Type 0 where
    bw_length : length t.0 ≡ n
    load_length : length t.1 ≡ n
    bw_at :
        (j : ℕ)
        → let z = o.of_nat 0 in
          get_or t.0 j z
          ≡ (if leb start j && ltb j i then o.add (get_or v.0 j z) bytes else get_or v.0 j z)
    load_at :
        (j : ℕ)
        → get_or t.1 j 0
          ≡ (if leb start j && ltb j i then add_u64 (get_or v.1 j 0) sz else get_or v.1 j 0)

  fill_round :
      (bytes : D) (sz n start end : ℕ) (v : List D × List ℕ)
      → end ≤ n
      → (i : ℕ) (t : List D × List ℕ) → i < end
      → (start ≤ i) × Filled bytes sz n start v i t
      → (u : List D × List ℕ) × (add_to_bucket bytes sz i t ≡ some u)
        × ((start ≤ i + 1) × Filled bytes sz n start v (i + 1) u)
  fill_round bytes sz n start end v hn i (bw, load) h (hs, c) =
      let f : D → D = λ x. o.add x bytes in
      let g : ℕ → ℕ = λ m. add_u64 m sz in
      let z = o.of_nat 0 in
      (
        (modify bw i f, modify load i g),
        rw (
          update_lem bw i f (omega (arith, c.bw_length)),
          update_lem load i g (omega (arith, c.load_length)),
        ),
        (
          omega arith,
          record {
            bw_length = length-modify bw i f ∙ c.bw_length;
            load_length = length-modify load i g ∙ c.load_length;
            bw_at = λ j.
                ground (arith, get_or-modify bw i j f z (omega (arith, c.bw_length)), c.bw_at j);
            load_at = λ j.
                ground
                  (arith, get_or-modify load i j g 0 (omega (arith, c.load_length)), c.load_at j);
          },
        ),
      )

  fill_loop :
      (bytes : D) (sz n start end : ℕ) (v : List D × List ℕ)
      → end ≤ n
      → start ≤ end
      → length v.0 ≡ n
      → length v.1 ≡ n
      → (u : List D × List ℕ) × (for_range (end - start) start (add_to_bucket bytes sz) v ≡ some u)
        × Filled bytes sz n start v end u
  fill_loop bytes sz n start end v hn hs hb hl =
      let loop =
        for_range_inv (λ i t. (start ≤ i) × Filled bytes sz n start v i t) (add_to_bucket bytes sz)
          end (fill_round bytes sz n start end v hn) (end - start) start v (omega arith)
          (
            omega arith,
            record {
              bw_length = hb;
              load_length = hl;
              bw_at = λ j. ground arith;
              load_at = λ j. ground arith;
            },
          ) in
      (loop.0, loop.1, loop.2.1)

  latency_lem :
      (wanted : Bool) (i latency_in_ns : ℕ) (latency : List D)
      → (wanted ≡ true → i < length latency)
      → (t : List D) × (update_latency wanted i latency_in_ns latency ≡ some t)
        × (length t ≡ length latency)
        × ((j : ℕ)
            → let z = o.of_nat 0 in
              get_or t j z ≡ (
                if wanted && i == j
                then fmax (get_or latency j z) (o.of_nat latency_in_ns)
                else get_or latency j z))
  unfolding update_latency
  latency_lem true i latency_in_ns latency h =
      let f : D → D = λ x. fmax x (o.of_nat latency_in_ns) in
      (
        modify latency i f,
        update_lem latency i f (h refl),
        length-modify latency i f,
        λ j. get_or-modify latency i j f (o.of_nat 0) (h refl),
      )
  latency_lem false i latency_in_ns latency h = (latency, refl, refl, λ j. refl)

  -- `s'` is `s` after a transaction of `sz` bytes whose window is `[start, end)` of `n` buckets.
  pub record IsSpread (n sz latency_in_ns direction start end : ℕ) (wanted : Bool)
      (s s' : BwStats D) : Type 0 where
    pub start_kept : s'.start_time_milliseconds ≡ s.start_time_milliseconds
    pub one_direction : s'.bw ≡ put s.bw direction (at s'.bw direction)
    pub bw_at :
        (j : ℕ)
        → let z = o.of_nat 0 in
          get_or (at s'.bw direction) j z ≡ (
            if leb start j && ltb j end
            then o.add
                (get_or (at s.bw direction) j z)
                (o.div (o.of_nat sz) (o.of_nat (sub_u64 end start)))
            else get_or (at s.bw direction) j z)
    pub load_at :
        (j : ℕ)
        → get_or (at s'.offered_load direction) j 0 ≡ (
            if leb start j && ltb j end
            then add_u64 (get_or (at s.offered_load direction) j 0) sz
            else get_or (at s.offered_load direction) j 0)
    pub latency_at :
        (j : ℕ)
        → let z = o.of_nat 0 in
          get_or s'.latency j z ≡ (
            if wanted && start == j
            then fmax (get_or s.latency j z) (o.of_nat latency_in_ns)
            else get_or s.latency j z)

  spread-IsSpread :
      (n : ℕ) (v : Bool) (s : BwStats D) (sz latency_in_ns direction start end : ℕ) (wanted : Bool)
      → HasSize n v s
      → (wanted ≡ true → v ≡ true)
      → start < end
      → end ≤ n
      → (s' : BwStats D) × (spread s sz latency_in_ns direction start end wanted ≡ some s')
        × HasSize n v s'
        × IsSpread n sz latency_in_ns direction start end wanted s s'
  unfolding spread
  spread-IsSpread n v s sz latency_in_ns direction start end wanted h hv hs he =
      let bytes = o.div (o.of_nat sz) (o.of_nat (sub_u64 end start)) in
      let len = length-at n v s direction h in
      let loop =
        fill_loop bytes sz n start end (at s.bw direction, at s.offered_load direction) he
          (omega arith) len.0 len.1 in
      let lat =
        latency_lem wanted start latency_in_ns s.latency (λ w. omega (arith, h.latency (hv w))) in
      let s' : BwStats D = record s {
        bw = put s.bw direction loop.0.0;
        offered_load = put s.offered_load direction loop.0.1;
        latency = lat.0;
      } in
      (
        s',
        rw (loop.1, lat.1),
        put_vectors-HasSize n v s direction loop.0.0 loop.0.1 lat.0 h loop.2.bw_length
            loop.2.load_length (λ w. lat.2 ∙ h.latency w),
        record {
          start_kept = refl;
          one_direction = rw (at-put s.bw direction loop.0.0);
          bw_at = λ j. rw (at-put s.bw direction loop.0.0) (loop.2.bw_at j);
          load_at = λ j. rw (at-put s.offered_load direction loop.0.1) (loop.2.load_at j);
          latency_at = lat.3;
        },
      )

  abbrev pub window_start : Connection D → BwStats D → ℕ → ℕ → ℕ
  window_start c s reported latency_in_ns =
      start_idx c.bw_bucket_time_in_milliseconds reported s.start_time_milliseconds latency_in_ns

  abbrev pub window_end : Connection D → BwStats D → ℕ → ℕ → ℕ
  window_end c s reported n =
      end_idx c.bw_bucket_time_in_milliseconds reported s.start_time_milliseconds n

  one_vector-HasSize :
      (n : ℕ) (v : Bool) (s : BwStats D) (direction i : ℕ) (f : D → D)
      → HasSize n v s
      → HasSize n v (record s { bw = put s.bw direction (modify (at s.bw direction) i f) })
  one_vector-HasSize n v s direction i f h = elim (Bool-cases (direction == 0)) [
    | inl e ↦ rw e (record {
      send = length-modify s.bw.at_0 i f ∙ h.send;
      recv = h.recv;
      send_load = h.send_load;
      recv_load = h.recv_load;
      latency = h.latency;
    })
    | inr e ↦ rw e (record {
      send = h.send;
      recv = length-modify s.bw.at_1 i f ∙ h.recv;
      send_load = h.send_load;
      recv_load = h.recv_load;
      latency = h.latency;
    })
  ]

  -- What a transaction does to the half that is written, where its vectors have `n` buckets.
  pub data IsRecorded (c : Connection D) (n sz latency_in_ns direction reported : ℕ)
      (s s' : BwStats D) : Type 0 where
    -- Before the first swap nothing is recorded.
    first_period :
        s.start_time_milliseconds ≡ 0
        → s' ≡ s
        → IsRecorded c n sz latency_in_ns direction reported s s'
    -- An empty window: all bytes go to the last bucket.
    past_end :
        s.start_time_milliseconds ≢ 0
        → window_end c s reported n ≤ window_start c s reported latency_in_ns
        → s' ≡ record s {
          bw = put s.bw direction (modify (at s.bw direction) (n - 1) (λ x. o.add x (o.of_nat sz)));
        }
        → IsRecorded c n sz latency_in_ns direction reported s s'
    -- The bytes are spread evenly over the window.
    in_window :
        s.start_time_milliseconds ≢ 0
        → window_start c s reported latency_in_ns < window_end c s reported n
        → window_end c s reported n ≤ n
        → IsSpread n sz latency_in_ns direction
            (window_start c s reported latency_in_ns)
            (window_end c s reported n)
            (takes_latency c direction)
            s
            s'
        → IsRecorded c n sz latency_in_ns direction reported s s'

  -- `updateBwAndLatencyStats` never accesses a vector past its end, whatever the clock says, if there
  -- is a bucket. It does nothing in the first period, adds the bytes to the last bucket where the
  -- window is empty, and otherwise spreads them over the window; the vectors keep their sizes.
  pub update_bw-IsRecorded :
      (n : ℕ) (c : Connection D) (s : BwStats D) (sz latency_in_ns direction reported : ℕ)
      → HasSize n c.variance_hist_collection_enabled s
      → 0 < n
      → n < u64_mod
      → (s' : BwStats D) × (update_bw_and_latency_stats c s sz latency_in_ns direction reported
          ≡ some s')
        × HasSize n c.variance_hist_collection_enabled s'
        × IsRecorded c n sz latency_in_ns direction reported s s'
  unfolding update_bw_and_latency_stats
  update_bw-IsRecorded n c s sz latency_in_ns direction reported h hn hw =
      let start = window_start c s reported latency_in_ns in
      let end = window_end c s reported n in
      let past = end_idx-le c.bw_bucket_time_in_milliseconds reported s.start_time_milliseconds n in
      let len = length-at n c.variance_hist_collection_enabled s direction h in
      elim (Bool-cases (s.start_time_milliseconds == 0)) [
        | inl e ↦ (s, rw e, h, first_period (==→eq _ _ e) refl)
        | inr e ↦ elim (Bool-cases (leb end start)) [
          | inl f ↦
              let bw = modify (at s.bw direction) (n - 1) (λ x. o.add x (o.of_nat sz)) in
              (
                record s { bw = put s.bw direction bw },
                rw (
                  e,
                  len.0,
                  f,
                  last_bucket n hn hw,
                  update_lem (at s.bw direction) (n - 1) (λ x. o.add x (o.of_nat sz))
                      (omega (arith, len.0)),
                ),
                one_vector-HasSize n c.variance_hist_collection_enabled s direction (n - 1)
                    (λ x. o.add x (o.of_nat sz)) h,
                past_end (ground arith) (leb→le _ _ f) refl,
              )
          | inr f ↦
              let r =
                spread-IsSpread n c.variance_hist_collection_enabled s sz latency_in_ns direction
                  start end (takes_latency c direction) h (λ w. and_left _ _ w) (ground arith)
                  past in
              (r.0, rw (e, len.0, f) r.1, r.2, in_window (ground arith) (ground arith) past r.3)
        ]
      ]
