-- ===== src/Connection/Interval/Ready.antt =====
-- src/nccl_stats_aggregator.cc: what the end of an interval asks of a connection.
use gpuviz.Base.{
  ℕ, ◌<◌, ◌≡◌, ◌≢◌, ◌∙◌, sym, Bool, true, ◌&&◌, ltb, ◌==◌, ==→eq, arith, Bool-cases, inl, inr,
}
use gpuviz.Base.Words.{u64_mod}
use gpuviz.Bucketer.{Bucketer}
use gpuviz.Stats.{mask, is_set}
use gpuviz.Stats.Idx
use gpuviz.Connection.{Two, at, put, Connection, DistributionMap, IsMirrored}
use gpuviz.Connection.Shape.{IsSized}
use gpuviz.Connection.Histograms.{Holds, SameBut}

-- The distributions that a bitmap asks for.
abbrev pub collects : ℕ → ℕ → Bool
collects bitmap j = ltb j 7 && is_set bitmap (mask j)

module _ {D : Type 0} where
  -- The histograms that `w` tells are there, those of bandwidth, and, where variance is detected, that of
  -- latency variance.
  pub record HasBandwidth (w : ℕ → Bool) (variance : Bool) (m : DistributionMap D) : Type 0 where
    pub collected : (j : ℕ) → w j ≡ true → (b : Bucketer D) × Holds m j b
    pub send : (b : Bucketer D) × Holds m Idx.send_bandwidth b
    pub recv : (b : Bucketer D) × Holds m Idx.recv_bandwidth b
    pub latency : variance ≡ true → (b : Bucketer D) × Holds m Idx.latency_variance b

  pub record IsReady (n carry : ℕ) (w : ℕ → Bool) (variance : Bool) (c : Connection D)
      : Type 0 where
    pub mirrored : IsMirrored c
    pub bounded : c.generation_bw < u64_mod
    pub sized : IsSized n c
    pub hist_0 : HasBandwidth w variance c.distribution_map.at_0
    pub hist_1 : HasBandwidth w variance c.distribution_map.at_1
    pub same_variance : c.variance_hist_collection_enabled ≡ variance
    pub same_carry : c.carry_over_buckets ≡ carry
    pub collecting : c.bw_hist_collection_enabled ≡ true

  -- A bucketer that is there is still there.
  held_after :
      (m m' : DistributionMap D) (idx j : ℕ) (b' : Bucketer D)
      → Holds m' idx b'
      → SameBut idx m m'
      → (b : Bucketer D) × Holds m j b
      → (b : Bucketer D) × Holds m' j b
  held_after m m' idx j b' h s (b, k) = elim (Bool-cases (idx == j)) [
    | inl e ↦ (b', rw (sym (==→eq idx j e)) h)
    | inr e ↦ (let ne : idx ≢ j = ground arith in (b, s.others j ne ∙ k))
  ]

  pub HasBandwidth-after :
      (w : ℕ → Bool) (v : Bool) (m m' : DistributionMap D) (idx : ℕ) (b : Bucketer D)
      → Holds m' idx b
      → SameBut idx m m'
      → HasBandwidth w v m
      → HasBandwidth w v m'
  HasBandwidth-after w v m m' idx b h s k = record {
    collected = λ j e. held_after m m' idx j b h s (k.collected j e);
    send = held_after m m' idx Idx.send_bandwidth b h s k.send;
    recv = held_after m m' idx Idx.recv_bandwidth b h s k.recv;
    latency = λ e. held_after m m' idx Idx.latency_variance b h s (k.latency e);
  }

  pub at-HasBandwidth :
      (w : ℕ → Bool) (v : Bool) (t : Two (DistributionMap D)) (i : ℕ)
      → HasBandwidth w v t.at_0
      → HasBandwidth w v t.at_1
      → HasBandwidth w v (at t i)
  at-HasBandwidth w v t i h k = elim (Bool-cases (i == 0)) [ inl e ↦ rw e h | inr e ↦ rw e k ]

  pub put-HasBandwidth :
      (w : ℕ → Bool) (v : Bool) (t : Two (DistributionMap D)) (i : ℕ) (m : DistributionMap D)
      → HasBandwidth w v t.at_0
      → HasBandwidth w v t.at_1
      → HasBandwidth w v m
      → HasBandwidth w v (put t i m).at_0 × HasBandwidth w v (put t i m).at_1
  put-HasBandwidth w v t i m h k l = elim (Bool-cases (i == 0)) [
    | inl e ↦ rw e (l, k)
    | inr e ↦ rw e (h, l)
  ]
