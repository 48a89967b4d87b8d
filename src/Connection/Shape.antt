-- ===== src/Connection/Shape.antt =====
-- src/nccl_stats_aggregator.cc: the sizes of a connection's vectors, which `initBWCollectionBuckets`
-- sets and no operation changes.
use gpuviz.Base.{ℕ, ◌≡◌, ◌≤◌, ◌<◌, Bool, true, List, length, ◌==◌, inl, inr, Bool-cases}
use gpuviz.Base.Words.{u64_mod}
use gpuviz.Connection.{Two, at, put, BwStats, Connection}

module _ {D : Type 0} where
  -- Latencies are kept only where variance is detected.
  pub record HasSize (n : ℕ) (variance : Bool) (s : BwStats D) : Type 0 where
    pub send : length s.bw.at_0 ≡ n
    pub recv : length s.bw.at_1 ≡ n
    pub send_load : length s.offered_load.at_0 ≡ n
    pub recv_load : length s.offered_load.at_1 ≡ n
    pub latency : variance ≡ true → length s.latency ≡ n

  -- All vectors have `n` buckets, and the carried ones are among them.
  pub record IsSized (n : ℕ) (c : Connection D) : Type 0 where
    pub half_0 : HasSize n c.variance_hist_collection_enabled c.bw_stats.at_0
    pub half_1 : HasSize n c.variance_hist_collection_enabled c.bw_stats.at_1
    pub carried : c.carry_over_buckets ≤ n
    pub fits : n < u64_mod

  pub at-HasSize :
      (n : ℕ) (c : Connection D) (i : ℕ)
      → IsSized n c
      → HasSize n c.variance_hist_collection_enabled (at c.bw_stats i)
  at-HasSize n c i z = elim (Bool-cases (i == 0)) [ inl e ↦ rw e z.half_0 | inr e ↦ rw e z.half_1 ]

  pub put-HasSize :
      (n : ℕ) (v : Bool) (t : Two (BwStats D)) (i : ℕ) (s : BwStats D)
      → HasSize n v t.at_0
      → HasSize n v t.at_1
      → HasSize n v s
      → HasSize n v (put t i s).at_0 × HasSize n v (put t i s).at_1
  put-HasSize n v t i s h k l = elim (Bool-cases (i == 0)) [
    | inl e ↦ rw e (l, k)
    | inr e ↦ rw e (h, l)
  ]

module _ {A : Type 0} where
  pub at-put : (t : Two A) (i : ℕ) (a : A) → at (put t i a) i ≡ a
  at-put t i a = elim (Bool-cases (i == 0)) [ inl e ↦ rw e | inr e ↦ rw e ]

module _ {D : Type 0} where
  -- New vectors of the same sizes in one direction.
  pub put_vectors-HasSize :
      (n : ℕ) (v : Bool) (s : BwStats D) (direction : ℕ) (bw : List D) (load : List ℕ)
      (latency : List D)
      → HasSize n v s
      → length bw ≡ n
      → length load ≡ n
      → (v ≡ true → length latency ≡ n)
      → HasSize n v (record s {
        bw = put s.bw direction bw;
        offered_load = put s.offered_load direction load;
        latency = latency;
      })
  put_vectors-HasSize n v s direction bw load latency h hb hl ht =
      elim (Bool-cases (direction == 0)) [
        | inl e ↦ rw e (record {
          send = hb;
          recv = h.recv;
          send_load = hl;
          recv_load = h.recv_load;
          latency = ht;
        })
        | inr e ↦ rw e (record {
          send = h.send;
          recv = hb;
          send_load = h.send_load;
          recv_load = hl;
          latency = ht;
        })
      ]

module _ {A : Type 0} where
  pub put-put : (t : Two A) (i : ℕ) (a b : A) → put (put t i a) i b ≡ put t i b
  put-put t i a b = elim (Bool-cases (i == 0)) [ inl e ↦ rw e | inr e ↦ rw e ]

  pub put-at : (t : Two A) (i : ℕ) → put t i (at t i) ≡ t
  put-at t i = elim (Bool-cases (i == 0)) [ inl e ↦ rw e | inr e ↦ rw e ]
