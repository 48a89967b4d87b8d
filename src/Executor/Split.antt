-- ===== src/Executor/Split.antt =====
-- src/nccl_stats_uploader_executor.cc: what `SplitAllStatsMessageIntoQ` does with the entries of a
-- message, the sizes of the chunks and their numbers.
pub mod Chunks
pub mod Order
pub mod Size
pub mod Numbers
