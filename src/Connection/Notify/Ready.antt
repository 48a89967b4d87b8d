-- ===== src/Connection/Notify/Ready.antt =====
-- src/nccl_stats_aggregator.cc: `notifyOperationMeasurement` keeps what the end of an interval asks of a
-- connection, and does not fault where the plugin keeps to the distributions that it asked for.
use mathlib.Core.Path.{subst}
use gpuviz.Base.{inl, inr, arith, sym, ap, ◌∙◌, ℕ, ◌<◌, ◌≡◌, refl, Bool, true, some, List}
use gpuviz.Base.Faults.{StatusOr-cases, Status, StatusOr, value, status}
use gpuviz.Double.{DoubleOps}
use gpuviz.Stats.{OpType, LatencyType, OperationMetric}
use gpuviz.Stats.Idx
use gpuviz.Connection.{
  Connection, DistributionMap, at, get_size_distribution_type, get_latency_distribution_type,
  get_current_write_distribution_map_index, get_current_bw_write_index,
}
use gpuviz.Connection.Interval.Ready.{HasBandwidth, IsReady, at-HasBandwidth, put-HasBandwidth}
use gpuviz.Connection.Notify.{notify_operation_measurement}
use gpuviz.Connection.Notify.Samples.{Held, Held-kept, IsNotified, first_refusal}
use gpuviz.Connection.Notify.Operation.{samples_of, notify_operation_measurement-IsNotified}

-- A status that, if it is a distribution, is one that `w` tells.
abbrev pub IsAskedFor : (ℕ → Bool) → StatusOr ℕ → Type 0
IsAskedFor w (status e) = Unit {0}
IsAskedFor w (value t) = w t ≡ true

-- The operation's size, and each of its latencies that is not refused, belong to distributions that
-- were asked for.
pub record IsLegal (w : ℕ → Bool) (type : OpType) : Type 0 where
  pub size : IsAskedFor w (get_size_distribution_type type)
  pub latency : (l : LatencyType) → IsAskedFor w (get_latency_distribution_type type l)

asked_for : (w : ℕ → Bool) (e : StatusOr ℕ) (t : ℕ) → e ≡ value t → IsAskedFor w e → w t ≡ true
asked_for w e t h k = subst (IsAskedFor w) h k

module _ {D : Type 0} ⦃o : DoubleOps D⦄ where
  kept-HasBandwidth :
      (w : ℕ → Bool) (v : Bool) (m m' : DistributionMap D)
      → ((j : ℕ) → Held m j → Held m' j)
      → HasBandwidth w v m
      → HasBandwidth w v m'
  kept-HasBandwidth w v m m' f h = record {
    collected = λ j e. f j (h.collected j e);
    send = f Idx.send_bandwidth h.send;
    recv = f Idx.recv_bandwidth h.recv;
    latency = λ e. f Idx.latency_variance (h.latency e);
  }

  after-IsReady :
      (n carry : ℕ) (w : ℕ → Bool) (v : Bool) (idx idx_bw : ℕ) (samples : ℕ → List D)
      (c c' : Connection D)
      → IsReady n carry w v c
      → IsNotified n idx idx_bw samples c c'
      → IsReady n carry w v c' × (c'.config ≡ c.config)
  after-IsReady n carry w v idx idx_bw samples c c' r s =
      let same : c'.config ≡ c.config = ap (λ x. x.config) s.frame in
      let maps = ap (λ x. x.distribution_map) s.frame in
      let m' = at c'.distribution_map idx in
      let (h0, h1) = put-HasBandwidth w v c.distribution_map idx m' r.hist_0 r.hist_1 (
        kept-HasBandwidth w v (at c.distribution_map idx) m'
          (Held-kept (at c.distribution_map idx) m' samples s.histograms)
          (at-HasBandwidth w v c.distribution_map idx r.hist_0 r.hist_1)) in
      let collecting : c'.bw_hist_collection_enabled ≡ true =
        ap (λ k. k.bw_hist_collection_enabled) same ∙ r.collecting in
      (
        record {
          mirrored = record {
            hist =
                ap (λ x. x.generation_for_reporter_read) s.frame
                ∙ r.mirrored.hist
                ∙ sym (ap (λ x. x.generation) s.frame);
            bw =
                ap (λ x. x.generation_bw_for_reporter_read) s.frame
                ∙ r.mirrored.bw
                ∙ sym (ap (λ x. x.generation_bw) s.frame);
          };
          bounded = omega (arith, ap (λ x. x.generation_bw) s.frame, r.bounded);
          sized = s.recordable collecting;
          hist_0 = subst (λ t. HasBandwidth w v t.at_0) (sym maps) h0;
          hist_1 = subst (λ t. HasBandwidth w v t.at_1) (sym maps) h1;
          same_variance = ap (λ k. k.variance_hist_collection_enabled) same ∙ r.same_variance;
          same_carry = ap (λ k. k.carry_over_buckets) same ∙ r.same_carry;
          collecting = collecting;
        },
        same,
      )

  refused :
      (c : Connection D) (now : ℕ) (m : OperationMetric) (e : Status)
      → get_size_distribution_type m.type ≡ status e
      → notify_operation_measurement c now m ≡ some (e, c)
  unfolding notify_operation_measurement
  refused c now m e f = rw (f, notify_operation_measurement) refl

  pub notify-IsReady :
      (n carry : ℕ) (w : ℕ → Bool) (v : Bool) (c : Connection D) (now : ℕ) (m : OperationMetric)
      → 0 < n
      → IsReady n carry w v c
      → IsLegal w m.type
      → (s : Status) × (c' : Connection D) × (notify_operation_measurement c now m ≡ some (s, c'))
        × IsReady n carry w v c'
        × (c'.config ≡ c.config)
  notify-IsReady n carry w v c now m hn r legal =
      let idx = get_current_write_distribution_map_index c in
      let there = (at-HasBandwidth w v c.distribution_map idx r.hist_0 r.hist_1).collected in
      elim (StatusOr-cases (get_size_distribution_type m.type)) [
        | inl (t, e) ↦
            let (c', f, s) =
              notify_operation_measurement-IsNotified n c now m t hn (λ _. r.sized) e
                (there t (asked_for w (get_size_distribution_type m.type) t e legal.size))
                (λ l u g.
                  there u
                    (asked_for w (get_latency_distribution_type m.type l) u g (legal.latency l))) in
            let (r', k) =
              after-IsReady n carry w v idx (get_current_bw_write_index c) (samples_of t m) c c' r
                s in
            (first_refusal m.type m.measurements, c', f, r', k)
        | inr (e, f) ↦ (e, c, refused c now m e f, r, refl)
      ]
