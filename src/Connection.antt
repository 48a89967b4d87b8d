-- ===== src/Connection.antt =====
-- src/nccl_stats_aggregator.h and .cc: the state of one `NcclStatsConnectionStatistics`, and the
-- functions that say which half of a double buffer is written and which is read.
-- A vector is a list; an access past its end, and a call through a null pointer, is a fault, `none`.
pub mod Identifier
pub mod Setup
pub mod Histograms
pub mod Shape
pub mod Notify
pub mod Interval
pub mod Report
pub mod Message
mod Tests
use gpuviz.Base.{
  ℕ, ◌≡◌, zero, suc, ◌+◌, ◌%◌, ◌/◌, ◌*◌, Bool, Option, none, some, List, [], ◌∷◌, ◌&&◌, leb, ◌==◌,
  if◌then◌else◌, get_elem?,
}
use gpuviz.Base.Words.{add_u64, sub_u64}
use gpuviz.Base.Faults.{◌>>=◌, Status, ok, invalid_argument, StatusOr, value, status, update}
use gpuviz.Double.{DoubleOps}
use gpuviz.Bucketer
use gpuviz.Bucketer.{Bucketer}
use gpuviz.Stats.{is_set, OpType, LatencyType}
use gpuviz.Stats.Idx
use Identifier.{ConnectionIdentifier}

-- An array of two, for `NUM_STATES` and `NUM_BW_DIRECTION`; indices are taken modulo 2 by the code.
pub record Two (A : Type 0) : Type 0 where
  pub at_0 : A
  pub at_1 : A

module _ {A : Type 0} where
  abbrev pub at : Two A → ℕ → A
  at t i = if i == 0 then t.at_0 else t.at_1

  abbrev pub put : Two A → ℕ → A → Two A
  put t i a = if i == 0 then record t { at_0 = a } else record t { at_1 = a }

-- `BWDirection`.
abbrev pub nccl_send : ℕ
nccl_send = 0

abbrev pub nccl_recv : ℕ
nccl_recv = 1

-- `BwStats`; `bw` and `offered_load` have a vector for each direction.
pub record BwStats (D : Type 0) : Type 0 where
  pub start_time_milliseconds : ℕ
  pub bw : Two (List D)
  pub offered_load : Two (List ℕ)
  pub latency : List D

-- One half of `distribution_map_`: `protoTotalDistributionType` pointers, `none` where null.
abbrev pub DistributionMap : Type 0 → Type 0
DistributionMap D = List (Option (Bucketer D))

-- The members that a connection never changes.
pub record Config (D : Type 0) : Type 0 where
  pub connection_id : ConnectionIdentifier
  pub bw_bucket_time_in_milliseconds : ℕ
  pub carry_over_buckets : ℕ
  pub distribution_collector_bitmap : ℕ
  pub baseline_latency_in_ns : D
  pub target_bw_per_nic_in_bits_per_sec : D
  pub bw_hist_collection_enabled : Bool
  pub variance_hist_collection_enabled : Bool

pub record Connection (D : Type 0) : Type 0 where
  pub config : Config D
  pub open config use *
  pub generation : ℕ
  pub generation_bw : ℕ
  pub generation_for_reporter_read : ℕ
  pub generation_bw_for_reporter_read : ℕ
  pub distribution_map : Two (DistributionMap D)
  pub bw_stats : Two (BwStats D)

module _ {D : Type 0} where
  pub get_current_write_distribution_map_index : Connection D → ℕ
  get_current_write_distribution_map_index c = c.generation_for_reporter_read % 2

  pub get_current_bw_write_index : Connection D → ℕ
  get_current_bw_write_index c = c.generation_bw % 2

  pub get_current_bw_write_index_unlocked : Connection D → ℕ
  get_current_bw_write_index_unlocked c = c.generation_bw_for_reporter_read % 2

  pub get_current_bw_read_index_unlocked : Connection D → ℕ
  get_current_bw_read_index_unlocked c = add_u64 c.generation_bw_for_reporter_read 1 % 2

  -- The generations that the reporter reads mirror those under the lock, and are `uint64_t`.
  pub record IsMirrored (c : Connection D) : Type 0 where
    pub hist : c.generation_for_reporter_read ≡ c.generation
    pub bw : c.generation_bw_for_reporter_read ≡ c.generation_bw

-- How many buckets from the front are neither unused nor carried over.
pub get_bw_vec_valid_limit : ℕ → ℕ → ℕ → ℕ
get_bw_vec_valid_limit carry_over_buckets unused_buckets vec_size =
    let skip_buckets = add_u64 unused_buckets carry_over_buckets in
    if leb vec_size skip_buckets then 0 else sub_u64 vec_size skip_buckets

pub is_bw_collection_enabled_in_bit_map : ℕ → ℕ → ℕ → Bool
is_bw_collection_enabled_in_bit_map bitmap latency_distribution size_distribution =
    is_set bitmap latency_distribution && is_set bitmap size_distribution

pub get_size_distribution_type : OpType → StatusOr ℕ
get_size_distribution_type OpType.chunk_send = value Idx.send_message_size
get_size_distribution_type OpType.chunk_recv = value Idx.recv_message_size
get_size_distribution_type _ = status invalid_argument

pub get_bw_distribution_type : ℕ → StatusOr ℕ
get_bw_distribution_type direction =
    if direction == nccl_send
    then value Idx.send_bandwidth
    else if direction == nccl_recv
    then value Idx.recv_bandwidth
    else status invalid_argument

pub get_latency_distribution_type : OpType → LatencyType → StatusOr ℕ
get_latency_distribution_type OpType.chunk_send LatencyType.software = value Idx.send_latency_sw
get_latency_distribution_type OpType.chunk_send LatencyType.net_hw = value Idx.send_latency_net_hw
get_latency_distribution_type OpType.chunk_send LatencyType.recv_ready = status invalid_argument
get_latency_distribution_type OpType.chunk_recv LatencyType.software = value Idx.recv_latency_sw
get_latency_distribution_type OpType.chunk_recv LatencyType.net_hw = value Idx.recv_latency_net_hw
get_latency_distribution_type OpType.chunk_recv LatencyType.recv_ready =
    value Idx.recv_ready_latency
get_latency_distribution_type _ _ = status invalid_argument

module _ {D : Type 0} ⦃o : DoubleOps D⦄ where
  -- `bw_bucket_time_in_milliseconds_` is a positive `int64_t`.
  pub calculate_bw_per_bucket_in_bits_per_sec : D → ℕ → D
  calculate_bw_per_bucket_in_bits_per_sec size_per_bucket_in_bytes latency_per_bucket_in_ms =
      o.div (o.mul (o.mul size_per_bucket_in_bytes (o.of_nat 8)) (o.of_nat 1000))
        (o.of_nat latency_per_bucket_in_ms)

  -- `distribution_map[idx]->Submit(sample)`.
  pub submit_to : DistributionMap D → ℕ → D → Option (DistributionMap D)
  submit_to m idx sample = do
    p ← get_elem? m idx
    b ← p
    update m idx (λ _. some (Bucketer.submit b sample))
