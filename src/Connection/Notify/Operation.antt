-- ===== src/Connection/Notify/Operation.antt =====
-- src/nccl_stats_aggregator.cc: the whole of `notifyOperationMeasurement`.
use gpuviz.Base.{ℕ, ◌<◌, ◌≡◌, refl, ◌∙◌, some, List, [], ◌∷◌, ◌++◌, ◌==◌, if◌then◌else◌}
use gpuviz.Base.Faults.{value}
use gpuviz.Double.{DoubleOps}
use gpuviz.Stats.{OperationMetric}
use gpuviz.Connection.{
  at, put, Connection, DistributionMap, submit_to, get_size_distribution_type,
  get_current_write_distribution_map_index, get_current_bw_write_index,
}
use gpuviz.Connection.Shape.{at-put, put-at}
use gpuviz.Bucketer.{Bucketer, submit_all}
use gpuviz.Connection.Histograms.{Holds}
use gpuviz.Connection.Notify.{notify_measurements, notify_operation_measurement}
use gpuviz.Connection.Notify.Samples.{
  first_refusal, Held, AllHeld, Recordable, latencies, IsNotified, Measured, submit_to-all,
  Held-kept, one_more, notify_measurements-IsNotified,
}

module _ {D : Type 0} ⦃o : DoubleOps D⦄ where
  abbrev pub samples_of : ℕ → OperationMetric → ℕ → List D
  samples_of size_type m j =
      (if size_type == j then o.of_nat m.op_sz ∷ [] else []) ++ latencies m.type j m.measurements

  size-Measured :
      (n : ℕ) (c : Connection D) (idx idx_bw t : ℕ) (x : D) (m' : DistributionMap D)
      → Recordable n c
      → ((j : ℕ) (b : Bucketer D)
          → Holds (at c.distribution_map idx) j b
          → Holds m' j (submit_all b (if t == j then x ∷ [] else [])))
      → Measured n idx idx_bw t x m' c
          (record c { distribution_map = put c.distribution_map idx m' })
  size-Measured n c idx idx_bw t x m' hr h = record {
    after = rw (put-at c.bw_stats idx_bw) refl;
    histograms = h;
    recordable = λ w.
        let z = hr w in
        record { half_0 = z.half_0; half_1 = z.half_1; carried = z.carried; fits = z.fits };
  }

  -- For an operation on a chunk, if the histograms of its size and of its latencies are there and, where
  -- bandwidth is collected, the vectors have a bucket: the handler does not fault, whatever the clock
  -- says. It returns the status of the first measurement that is refused, or OK. The histogram of the
  -- size has taken the size, and each histogram of latencies has taken, in order, the latencies of its
  -- type up to the first refusal; the other histograms have taken nothing. Nothing else has changed but
  -- the half of the bandwidth that is written.
  pub notify_operation_measurement-IsNotified :
      (n : ℕ) (c : Connection D) (now : ℕ) (m : OperationMetric) (size_type : ℕ)
      → 0 < n
      → Recordable n c
      → get_size_distribution_type m.type ≡ value size_type
      → Held (at c.distribution_map (get_current_write_distribution_map_index c)) size_type
      → AllHeld m.type (at c.distribution_map (get_current_write_distribution_map_index c))
      → (c' : Connection D) × (notify_operation_measurement c now m
          ≡ some (first_refusal m.type m.measurements, c'))
        × IsNotified n
            (get_current_write_distribution_map_index c)
            (get_current_bw_write_index c)
            (samples_of size_type m)
            c
            c'
  unfolding notify_operation_measurement
  notify_operation_measurement-IsNotified n c now m size_type hn hr ht hs hl =
      let idx = get_current_write_distribution_map_index c in
      let idx_bw = get_current_bw_write_index c in
      let reported = if c.bw_hist_collection_enabled then now else 0 in
      let (m', e, h) = submit_to-all (at c.distribution_map idx) size_type (o.of_nat m.op_sz) hs in
      let c1 = record c { distribution_map = put c.distribution_map idx m' } in
      let done = size-Measured n c idx idx_bw size_type (o.of_nat m.op_sz) m' hr h in
      let held : AllHeld m.type (at c1.distribution_map idx) = λ l u g.
        rw (at-put c.distribution_map idx m') (
          Held-kept (at c.distribution_map idx) m'
            (λ j. if size_type == j then o.of_nat m.op_sz ∷ [] else []) h u (hl l u g)) in
      let (c3, e3, rest) =
        notify_measurements-IsNotified m.type n m.op_sz idx idx_bw reported m.measurements c1 hn
          done.recordable held in
      (
        c3,
        handler c now m size_type m' ht e ∙ e3,
        one_more n idx idx_bw size_type (o.of_nat m.op_sz) (λ j. latencies m.type j m.measurements)
            m' c c1 c3 done rest,
      )
    where
      handler :
          (c : Connection D) (now : ℕ) (m : OperationMetric) (size_type : ℕ)
          (m' : DistributionMap D)
          → get_size_distribution_type m.type ≡ value size_type
          → submit_to
              (at c.distribution_map (get_current_write_distribution_map_index c))
              size_type
              (o.of_nat m.op_sz)
            ≡ some m'
          → notify_operation_measurement c now m
            ≡ notify_measurements m.type m.op_sz
                (get_current_write_distribution_map_index c)
                (get_current_bw_write_index c)
                (if c.bw_hist_collection_enabled then now else 0)
                m.measurements
                (record c {
                  distribution_map =
                      put c.distribution_map (get_current_write_distribution_map_index c) m';
                })
      handler c now m size_type m' f e = rw (f, notify_operation_measurement) (rw e refl)
