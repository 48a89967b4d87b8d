-- ===== src/Connection/Setup/Valid.antt =====
-- src/nccl_stats_aggregator.cc: a new connection.
use gpuviz.Base.{ℕ, ◌<◌, ◌≤◌, ◌≡◌, refl, Bool, true, length-replicate, if◌then◌else◌}
use gpuviz.Base.Words.{u64_mod}
use gpuviz.Double.{DoubleOps}
use gpuviz.Connection.{Config, IsMirrored}
use gpuviz.Connection.Shape.{HasSize, IsSized}
use gpuviz.Connection.Setup.{HistogramParams, init_bw_collection_buckets, new}

if_true : {A : Type 0} (b : Bool) (x y : A) → b ≡ true → (if b then x else y) ≡ x
if_true b x y h = rw h refl

module _ {D : Type 0} ⦃o : DoubleOps D⦄ where
  init_bw_collection_buckets-HasSize :
      (n : ℕ) (bw variance : Bool)
      → bw ≡ true
      → HasSize {D = D} n variance (init_bw_collection_buckets n bw variance)
  unfolding init_bw_collection_buckets
  init_bw_collection_buckets-HasSize n bw variance h = record {
    send = rw h (length-replicate n (o.of_nat 0));
    recv = rw h (length-replicate n (o.of_nat 0));
    send_load = rw h (length-replicate n 0);
    recv_load = rw h (length-replicate n 0);
    latency = λ v. rw (h, v) (length-replicate n (o.of_nat 0));
  }

  -- Where bandwidth is collected, and no more buckets are to be carried over than the vectors get, a
  -- new connection satisfies what the swap and the aggregation ask for: the generations agree, and all
  -- vectors of both halves have `bw_burst_count` buckets. Its two sets of histograms are the same.
  pub new-IsSized :
      (p : HistogramParams D) (c : Config D) (bw_burst_count : ℕ)
      → c.bw_hist_collection_enabled ≡ true
      → c.carry_over_buckets ≤ bw_burst_count
      → bw_burst_count < u64_mod
      → IsMirrored (new p c bw_burst_count)
        × IsSized bw_burst_count (new p c bw_burst_count)
        × ((new p c bw_burst_count).distribution_map.at_0
            ≡ (new p c bw_burst_count).distribution_map.at_1)
  unfolding new
  new-IsSized p c n h k l =
      let size =
        init_bw_collection_buckets-HasSize n c.bw_hist_collection_enabled
          c.variance_hist_collection_enabled h in
      (
        record { hist = refl; bw = refl },
        record { half_0 = size; half_1 = size; carried = k; fits = l },
        refl,
      )
