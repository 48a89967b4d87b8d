-- ===== src/Connection/Report.antt =====
-- src/nccl_stats_aggregator.cc: `readStatsFromLastInterval`, which the reporter thread runs while the
-- plugin goes on writing: the swap of the generation under the lock, then without it the reading of the
-- half that is no longer written, and its reset. The message is that half of the histograms, which
-- `Connection.Message` converts.
pub mod Samples
pub mod Ready
use gpuviz.Base.{ℕ, Option, none, some, List, map}
use gpuviz.Base.Words.{add_u64}
use gpuviz.Double.{DoubleOps}
use gpuviz.Bucketer
use gpuviz.Bucketer.{Bucketer}
use gpuviz.Connection.{
  Two, at, put, Connection, DistributionMap, get_current_write_distribution_map_index,
}

module _ {D : Type 0} where
  pub get_read_bucket_idx_and_swap_generation : Connection D → ℕ × Connection D
  get_read_bucket_idx_and_swap_generation c =
      let generation = add_u64 c.generation 1 in
      (
        get_current_write_distribution_map_index c,
        record c { generation = generation; generation_for_reporter_read = generation },
      )

  -- What the message is made from.
  pub get_connection_stats_from_read_bucket : ℕ → Connection D → DistributionMap D
  get_connection_stats_from_read_bucket idx c = at c.distribution_map idx

module _ {D : Type 0} ⦃o : DoubleOps D⦄ where
  abbrev pub reset_entry : Option (Bucketer D) → Option (Bucketer D)
  reset_entry none = none
  reset_entry (some b) = some (Bucketer.reset b)

  pub reset_read_bucket : ℕ → Connection D → Connection D
  reset_read_bucket idx c = record c {
    distribution_map = put c.distribution_map idx (map reset_entry (at c.distribution_map idx));
  }

  -- The three calls with nothing between them.
  pub read_stats_from_last_interval : Connection D → DistributionMap D × Connection D
  unfolding get_read_bucket_idx_and_swap_generation get_connection_stats_from_read_bucket
      reset_read_bucket
  read_stats_from_last_interval c =
      let (idx, c') = get_read_bucket_idx_and_swap_generation c in
      (get_connection_stats_from_read_bucket idx c', reset_read_bucket idx c')
