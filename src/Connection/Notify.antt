-- ===== src/Connection/Notify.antt =====
-- src/nccl_stats_aggregator.cc: `notifyOperationMeasurement` and `updateBwAndLatencyStats`, which run
-- under the lock of the connection. The monotonic clock is an argument. A measurement that is refused
-- leaves what the ones before it have recorded. The difference of two `int64_t` times does not
-- overflow: a latency of 64 bits in nanoseconds is below 2^45 milliseconds.
pub mod Window
pub mod Effect
pub mod Samples
pub mod Operation
pub mod Ready
use Prim.Native.Nat.{min, ◌-◌}
use gpuviz.Base.{
  ℕ, ◌+◌, ◌/◌, ◌^◌, Bool, true, false, Option, none, some, List, [], ◌∷◌, ltb, leb, ◌==◌, ◌&&◌,
  if◌then◌else◌, length,
}
use gpuviz.Base.Words.{add_u64, sub_u64, u64_mod}
use gpuviz.Base.Int.{ℤ, pos, ◌+ℤ◌, ◌-ℤ◌, max_ℤ, quot_ℤ, to_i64, of_i64}
use gpuviz.Base.Faults.{◌>>=◌, Status, ok, StatusOr, value, status, update, for_range}
use gpuviz.Double.{DoubleOps, fmax}
use gpuviz.Stats.{OperationMetric, LatencyMeasurement, OpType}
use gpuviz.Stats.Idx
use gpuviz.Connection.{
  Two, at, put, BwStats, DistributionMap, Connection, nccl_send, nccl_recv, submit_to,
  get_size_distribution_type, get_latency_distribution_type,
  get_current_write_distribution_map_index, get_current_bw_write_index,
}

-- `start_idx`: the bucket in which a transaction began.
pub start_idx : ℕ → ℕ → ℕ → ℕ → ℕ
start_idx bucket_time reported start latency_in_ns = of_i64 (
    max_ℤ (quot_ℤ (to_i64 (sub_u64 reported start) -ℤ to_i64 (latency_in_ns / 1000000)) bucket_time)
      (pos 0))

-- `end_idx`: one past the bucket in which it was reported.
pub end_idx : ℕ → ℕ → ℕ → ℕ → ℕ
end_idx bucket_time reported start size =
    min (of_i64 (quot_ℤ (to_i64 (sub_u64 reported start)) bucket_time +ℤ pos 1)) size

-- `UINT64_MAX` stands for a distribution with no bandwidth direction.
pub direction_of : ℕ → ℕ
direction_of distribution_type =
    if distribution_type == Idx.send_latency_sw
    then nccl_send
    else if distribution_type == Idx.recv_latency_sw
    then nccl_recv
    else u64_mod - 1

module _ {D : Type 0} ⦃o : DoubleOps D⦄ where
  -- One round of the loop over the buckets, on `bw_vec` and `offered_load`.
  abbrev pub add_to_bucket : D → ℕ → ℕ → List D × List ℕ → Option (List D × List ℕ)
  add_to_bucket bytes_per_bucket sz i (bw_vec, offered_load) = do
    bw_vec' ← update bw_vec i (λ x. o.add x bytes_per_bucket)
    offered_load' ← update offered_load i (λ n. add_u64 n sz)
    some (bw_vec', offered_load')

  pub update_latency : Bool → ℕ → ℕ → List D → Option (List D)
  update_latency wanted idx latency_in_ns latency =
      if wanted then update latency idx (λ x. fmax x (o.of_nat latency_in_ns)) else some latency

  pub spread : BwStats D → ℕ → ℕ → ℕ → ℕ → ℕ → Bool → Option (BwStats D)
  unfolding update_latency
  spread s sz latency_in_ns direction start end wanted = do
    let bytes_per_bucket = o.div (o.of_nat sz) (o.of_nat (sub_u64 end start))
    (bw_vec, load) ←
        for_range (end - start) start (add_to_bucket bytes_per_bucket sz)
          (at s.bw direction, at s.offered_load direction)
    latency ← update_latency wanted start latency_in_ns s.latency
    some (record s {
      bw = put s.bw direction bw_vec;
      offered_load = put s.offered_load direction load;
      latency = latency;
    })

  -- `updateBwAndLatencyStats` on the half that the writer holds.
  pub update_bw_and_latency_stats : Connection D → BwStats D → ℕ → ℕ → ℕ → ℕ → Option (BwStats D)
  unfolding spread
  update_bw_and_latency_stats c s sz latency_in_ns direction reported =
      let size = length (at s.bw direction) in
      let start =
        start_idx c.bw_bucket_time_in_milliseconds reported s.start_time_milliseconds
          latency_in_ns in
      let end = end_idx c.bw_bucket_time_in_milliseconds reported s.start_time_milliseconds size in
      if s.start_time_milliseconds == 0
      then some s
      else if leb end start
      then (do
        bw_vec ← update (at s.bw direction) (sub_u64 size 1) (λ x. o.add x (o.of_nat sz))
        some (record s { bw = put s.bw direction bw_vec }))
      else spread s sz latency_in_ns direction start end
          (c.variance_hist_collection_enabled && direction == nccl_send)

  pub update_bw : Connection D → ℕ → ℕ → ℕ → ℕ → ℕ → Option (Connection D)
  update_bw c sz latency_in_ns distribution_type idx_bw reported =
      let direction = direction_of distribution_type in
      if c.bw_hist_collection_enabled && (if direction == u64_mod - 1 then false else true)
      then (do
        s ← update_bw_and_latency_stats c (at c.bw_stats idx_bw) sz latency_in_ns direction reported
        some (record c { bw_stats = put c.bw_stats idx_bw s }))
      else some c

  -- The loop over the measurements of an operation.
  pub notify_measurements :
      OpType
      → ℕ
      → ℕ
      → ℕ
      → ℕ
      → List LatencyMeasurement
      → Connection D
      → Option (Status × Connection D)
  notify_measurements type sz idx idx_bw reported [] c = some (ok, c)
  notify_measurements type sz idx idx_bw reported (m ∷ ms) c =
      elim (get_latency_distribution_type type m.latency_type) [
        | status e ↦ some (e, c)
        | value distribution_type ↦ do
          map ←
              submit_to (at c.distribution_map idx) distribution_type
                (o.of_nat m.latency_in_nanoseconds)
          c' ←
              update_bw (record c { distribution_map = put c.distribution_map idx map }) sz
                m.latency_in_nanoseconds distribution_type idx_bw reported
          notify_measurements type sz idx idx_bw reported ms c'
      ]

  -- `now` is read before the lock is taken; it counts only where bandwidth is collected.
  pub notify_operation_measurement :
      Connection D → ℕ → OperationMetric → Option (Status × Connection D)
  notify_operation_measurement c now m =
      let reported = if c.bw_hist_collection_enabled then now else 0 in
      elim (get_size_distribution_type m.type) [
        | status e ↦ some (e, c)
        | value size_type ↦ do
          let idx = get_current_write_distribution_map_index c
          map ← submit_to (at c.distribution_map idx) size_type (o.of_nat m.op_sz)
          notify_measurements m.type m.op_sz idx (get_current_bw_write_index c) reported
              m.measurements (record c { distribution_map = put c.distribution_map idx map })
      ]
