-- ===== src/Connection/Setup/Ready.antt =====
-- src/nccl_stats_aggregator.cc: a new connection has what the end of an interval asks for.
use Prim.Native.Nat.{bit_and}
use mathlib.Core.Path.{subst}
use gpuviz.Base.{
  ℕ, zero, suc, ◌^◌, ◌<◌, ◌≤◌, ◌≡◌, ◌∙◌, refl, sym, ap, Bool, true, false, none, some, [], ◌∷◌, ltb,
  ◌==◌, ==→eq, arith, inl, inr, Bool-cases,
}
use gpuviz.Base.{and_left, and_right}
use gpuviz.Base.Words.{u64_mod}
use gpuviz.Double.{DoubleOps}
use gpuviz.Bucketer
use gpuviz.Bucketer.{Bucketer}
use gpuviz.Stats.{mask, is_set}
use gpuviz.Stats.Idx
use gpuviz.Connection.{is_bw_collection_enabled_in_bit_map, Config, DistributionMap}
use gpuviz.Connection.Histograms.{Holds}
use gpuviz.Connection.Interval.Ready.{collects, HasBandwidth, IsReady}
use gpuviz.Connection.Setup.{
  HistogramParams, init_slot, init_send_bandwidth, init_recv_bandwidth, init_distribution_map,
  new_bucketer, new,
}
use gpuviz.Connection.Setup.Valid.{new-IsSized}

-- The software latencies and the sizes are asked for, in both directions.
pub record HasBits (bitmap : ℕ) : Type 0 where
  pub send_latency : is_set bitmap (mask Idx.send_latency_sw) ≡ true
  pub send_size : is_set bitmap (mask Idx.send_message_size) ≡ true
  pub recv_latency : is_set bitmap (mask Idx.recv_latency_sw) ≡ true
  pub recv_size : is_set bitmap (mask Idx.recv_message_size) ≡ true

-- The NIC's test of the bitmap.
pub HasBits-enabled :
    (bitmap : ℕ)
    → HasBits bitmap
    → (is_bw_collection_enabled_in_bit_map bitmap
          (mask Idx.send_latency_sw)
          (mask Idx.send_message_size)
        ≡ true)
      × (is_bw_collection_enabled_in_bit_map bitmap
            (mask Idx.recv_latency_sw)
            (mask Idx.recv_message_size)
          ≡ true)
unfolding is_bw_collection_enabled_in_bit_map
HasBits-enabled bitmap h =
    (rw (h.send_latency, h.send_size) refl, rw (h.recv_latency, h.recv_size) refl)

beyond : (j : ℕ) → 7 ≤ j → ltb j 7 ≡ true → ⊥
beyond j h k = ground arith

power-ne_zero : (j : ℕ) → (2 ^ j == 0) ≡ false
power-ne_zero zero = refl
power-ne_zero (suc j) = ground (arith, power-ne_zero j)

mask-ne_zero : (bitmap j : ℕ) → collects bitmap j ≡ true → (bit_and bitmap (mask j) == 0) ≡ false
mask-ne_zero bitmap j h =
    ap (λ n. n == 0) (==→eq (bit_and bitmap (mask j)) (mask j) (and_right (ltb j 7) _ h))
    ∙ power-ne_zero j

module _ {D : Type 0} ⦃o : DoubleOps D⦄ where
  held :
      (p : HistogramParams D) (bitmap j : ℕ)
      → collects bitmap j ≡ true
      → (b : Bucketer D) × (some (init_slot p bitmap j) ≡ some (some b))
  unfolding init_slot new_bucketer
  held p bitmap j h = elim (Bool-cases (ltb j Idx.send_message_size)) [
    | inl e ↦ (
      Bucketer.new p.latency.max_buckets p.latency.scale p.latency.base,
      rw (mask-ne_zero bitmap j h, e) refl,
    )
    | inr e ↦ (
      Bucketer.new p.size.max_buckets p.size.scale p.size.base,
      rw (mask-ne_zero bitmap j h, e) refl,
    )
  ]

  -- The first seven histograms are those of the bitmap.
  slots_held :
      (p : HistogramParams D) (bitmap j : ℕ) (rest : DistributionMap D)
      → collects bitmap j ≡ true
      → let slot = init_slot p bitmap in
        (b : Bucketer D) × Holds
          (slot 0 ∷ slot 1 ∷ slot 2 ∷ slot 3 ∷ slot 4 ∷ slot 5 ∷ slot 6 ∷ rest)
          j
          b
  slots_held p bitmap zero rest h = held p bitmap 0 h
  slots_held p bitmap (suc zero) rest h = held p bitmap 1 h
  slots_held p bitmap (suc (suc zero)) rest h = held p bitmap 2 h
  slots_held p bitmap (suc (suc (suc zero))) rest h = held p bitmap 3 h
  slots_held p bitmap (suc (suc (suc (suc zero)))) rest h = held p bitmap 4 h
  slots_held p bitmap (suc (suc (suc (suc (suc zero))))) rest h = held p bitmap 5 h
  slots_held p bitmap (suc (suc (suc (suc (suc (suc zero)))))) rest h = held p bitmap 6 h
  slots_held p bitmap (suc (suc (suc (suc (suc (suc (suc j))))))) rest h =
      let k = suc (suc (suc (suc (suc (suc (suc j)))))) in
      absurd (beyond k (omega arith) (and_left (ltb k 7) (is_set bitmap (mask k)) h))

  -- The histograms of a new connection, in the order of their indices.
  slots-HasBandwidth :
      (p : HistogramParams D) (bitmap : ℕ) (v : Bool)
      → HasBits bitmap
      → HasBandwidth (collects bitmap) v (init_distribution_map p bitmap true v)
  unfolding init_distribution_map init_send_bandwidth init_recv_bandwidth new_bucketer
  slots-HasBandwidth p bitmap true h =
      let b = Bucketer.new p.bandwidth.max_buckets p.bandwidth.scale p.bandwidth.base in
      let l =
        Bucketer.new p.latency_variance.max_buckets p.latency_variance.scale
          p.latency_variance.base in
      rw (h.send_size, h.recv_latency, h.recv_size)
        (record {
          collected = λ j e. slots_held p bitmap j (some b ∷ some b ∷ none ∷ some l ∷ []) e;
          send = (b, refl);
          recv = (b, refl);
          latency = λ e. (l, refl);
        })
  slots-HasBandwidth p bitmap false h =
      let b = Bucketer.new p.bandwidth.max_buckets p.bandwidth.scale p.bandwidth.base in
      rw (h.send_size, h.recv_latency, h.recv_size)
        (record {
          collected = λ j e. slots_held p bitmap j (some b ∷ some b ∷ none ∷ none ∷ []) e;
          send = (b, refl);
          recv = (b, refl);
          latency = λ e. cc;
        })

  pub new-IsReady :
      (p : HistogramParams D) (c : Config D) (n : ℕ)
      → c.bw_hist_collection_enabled ≡ true
      → c.carry_over_buckets ≤ n
      → n < u64_mod
      → HasBits c.distribution_collector_bitmap
      → IsReady n c.carry_over_buckets
          (collects c.distribution_collector_bitmap)
          c.variance_hist_collection_enabled
          (new p c n)
        × ((new p c n).config ≡ c)
  unfolding new
  new-IsReady p c n h k l bits =
      let v = c.variance_hist_collection_enabled in
      let (m, z, _) = new-IsSized p c n h k l in
      let there : HasBandwidth (collects c.distribution_collector_bitmap) v
          (init_distribution_map p c.distribution_collector_bitmap c.bw_hist_collection_enabled v) =
        subst
          (λ b.
            HasBandwidth (collects c.distribution_collector_bitmap) v
              (init_distribution_map p c.distribution_collector_bitmap b v))
          (sym h) (slots-HasBandwidth p c.distribution_collector_bitmap v bits) in
      (
        record {
          mirrored = m;
          bounded = omega arith;
          sized = z;
          hist_0 = there;
          hist_1 = there;
          same_variance = refl;
          same_carry = refl;
          collecting = h;
        },
        refl,
      )
