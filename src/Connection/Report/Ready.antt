-- ===== src/Connection/Report/Ready.antt =====
-- src/nccl_stats_aggregator.cc: `readStatsFromLastInterval` keeps what the end of an interval asks of a
-- connection.
use gpuviz.Base.{ℕ, ◌≡◌, refl, Bool, map}
use gpuviz.Double.{DoubleOps}
use gpuviz.Bucketer
use gpuviz.Bucketer.{Bucketer}
use gpuviz.Stats.Idx
use gpuviz.Connection.{Connection, DistributionMap, at}
use gpuviz.Connection.Histograms.{Holds}
use gpuviz.Connection.Interval.Ready.{HasBandwidth, IsReady, at-HasBandwidth, put-HasBandwidth}
use gpuviz.Connection.Report.{
  get_read_bucket_idx_and_swap_generation, reset_entry, reset_read_bucket,
}
use gpuviz.Connection.Report.Samples.{map-Holds}

module _ {D : Type 0} ⦃o : DoubleOps D⦄ where
  reset_held :
      (m : DistributionMap D) (j : ℕ)
      → (b : Bucketer D) × Holds m j b
      → (b : Bucketer D) × Holds (map reset_entry m) j b
  reset_held m j (b, h) = (Bucketer.reset b, map-Holds m j b h)

  reset-HasBandwidth :
      (w : ℕ → Bool) (v : Bool) (m : DistributionMap D)
      → HasBandwidth w v m
      → HasBandwidth w v (map reset_entry m)
  reset-HasBandwidth w v m h = record {
    collected = λ j e. reset_held m j (h.collected j e);
    send = reset_held m Idx.send_bandwidth h.send;
    recv = reset_held m Idx.recv_bandwidth h.recv;
    latency = λ e. reset_held m Idx.latency_variance (h.latency e);
  }

  pub read-IsReady :
      (n carry : ℕ) (w : ℕ → Bool) (v : Bool) (c : Connection D)
      → IsReady n carry w v c
      → let (idx, c') = get_read_bucket_idx_and_swap_generation c in
        IsReady n carry w v (reset_read_bucket idx c')
        × ((reset_read_bucket idx c').config ≡ c.config)
  unfolding get_read_bucket_idx_and_swap_generation reset_read_bucket
  read-IsReady n carry w v c r =
      let (idx, c') = get_read_bucket_idx_and_swap_generation c in
      let (h0, h1) =
        put-HasBandwidth w v c.distribution_map idx (map reset_entry (at c.distribution_map idx))
          r.hist_0 r.hist_1
          (reset-HasBandwidth w v (at c.distribution_map idx)
            (at-HasBandwidth w v c.distribution_map idx r.hist_0 r.hist_1)) in
      (
        record {
          mirrored = record { hist = refl; bw = r.mirrored.bw };
          bounded = r.bounded;
          sized = record {
            half_0 = r.sized.half_0;
            half_1 = r.sized.half_1;
            carried = r.sized.carried;
            fits = r.sized.fits;
          };
          hist_0 = h0;
          hist_1 = h1;
          same_variance = r.same_variance;
          same_carry = r.same_carry;
          collecting = r.collecting;
        },
        refl,
      )
