-- ===== src/Executor.antt =====
-- src/nccl_stats_uploader_executor.cc: how a message of statistics is split into chunks and queued.
-- The entries of a message and their `ByteSizeLong` are protobuf's, and parameters here. A `size_t`
-- and the `uint64_t` upload index wrap around.
pub mod Split
pub mod Loop
mod Tests
use Prim.Native.String.{String}
use gpuviz.Base.{ℕ, Bool, List, [], ◌∷◌, ◌++◌, ◌==◌, ltb, not, ◌&&◌, length, modify, if◌then◌else◌}
use gpuviz.Base.Words.{add_u64}

-- `protoDist::AllStats`: log entries, statistics of connections, and events.
pub record AllStats (L C E : Type 0) : Type 0 where
  pub events_log : List L
  pub conn_stats : List C
  pub events : List E
  pub source_process_identifier : String
  pub upload_index : ℕ

-- `ByteSizeLong` of each kind of entry.
pub record ByteSize (L C E : Type 0) : Type 0 where
  pub log : L → ℕ
  pub stats : C → ℕ
  pub event : E → ℕ

-- The local variables of `SplitAllStatsMessageIntoQ`, with the member `index_`.
pub record SplitState (L C E : Type 0) : Type 0 where
  pub q : List (AllStats L C E)
  pub sub_m : AllStats L C E
  pub current_cumulative_size : ℕ
  pub index : ℕ

module _ {L C E : Type 0} where
  abbrev pub empty_message : AllStats L C E
  empty_message = record {
    events_log = [];
    conn_stats = [];
    events = [];
    source_process_identifier = "";
    upload_index = 0;
  }

  abbrev pub add_log : L → AllStats L C E → AllStats L C E
  add_log x m = record m { events_log = m.events_log ++ (x ∷ []) }

  abbrev pub add_stats : C → AllStats L C E → AllStats L C E
  add_stats x m = record m { conn_stats = m.conn_stats ++ (x ∷ []) }

  abbrev pub add_event : E → AllStats L C E → AllStats L C E
  add_event x m = record m { events = m.events ++ (x ∷ []) }

  -- `addSubMessageToQ`.
  pub add_sub_message_to_q : String → SplitState L C E → SplitState L C E
  add_sub_message_to_q process_identifier s = record {
    q =
        s.q
        ++ (record s.sub_m {
          source_process_identifier = process_identifier;
          upload_index = s.index;
        }
            ∷ []);
    sub_m = empty_message;
    current_cumulative_size = 0;
    index = add_u64 s.index 1;
  }

  -- `destination` is a pointer into one chunk, the one that stood at this place of the queue, or behind
  -- the queue, when it was taken; it follows that chunk into the queue.
  pub move_to : ℕ → (AllStats L C E → AllStats L C E) → SplitState L C E → SplitState L C E
  move_to destination append s =
      if destination == length s.q
      then record s { sub_m = append s.sub_m }
      else record s { q = modify s.q destination append }

  -- One round of the loop of `splitField`, for an entry that `append` moves into a chunk.
  pub split_entry :
      String → ℕ → ℕ → (AllStats L C E → AllStats L C E) → ℕ → SplitState L C E → SplitState L C E
  split_entry process_identifier bytes_per_message destination append current_size s =
      let full =
        not (s.current_cumulative_size == 0)
        && ltb bytes_per_message (add_u64 s.current_cumulative_size current_size) in
      let s' = if full then add_sub_message_to_q process_identifier s else s in
      let moved = move_to destination append s' in
      record moved { current_cumulative_size = add_u64 moved.current_cumulative_size current_size }

  -- The loop of `splitField`, from the last entry to the first.
  pub split_entries :
      {T : Type 0}
      → String
      → ℕ
      → ℕ
      → (T → AllStats L C E → AllStats L C E)
      → (T → ℕ)
      → List T
      → SplitState L C E
      → SplitState L C E
  split_entries process_identifier bytes_per_message destination append size [] s = s
  split_entries process_identifier bytes_per_message destination append size (x ∷ xs) s =
      split_entry process_identifier bytes_per_message destination (append x) (size x)
        (split_entries process_identifier bytes_per_message destination append size xs s)

  -- `splitField`, whose destination is taken from the chunk that is open at the call.
  pub split_field :
      {T : Type 0}
      → String
      → ℕ
      → (T → AllStats L C E → AllStats L C E)
      → (T → ℕ)
      → List T
      → SplitState L C E
      → SplitState L C E
  split_field process_identifier bytes_per_message append size xs s =
      split_entries process_identifier bytes_per_message (length s.q) append size xs s

  -- The queue, and the value of `index_` that is left.
  pub split_all_stats_message_into_q :
      ByteSize L C E → String → ℕ → ℕ → AllStats L C E → List (AllStats L C E) × ℕ
  split_all_stats_message_into_q byte_size process_identifier index bytes_per_message msg =
      let start : SplitState L C E = record {
        q = [];
        sub_m = empty_message;
        current_cumulative_size = 0;
        index = index;
      } in
      let logs =
        split_field process_identifier bytes_per_message add_log byte_size.log msg.events_log
          start in
      let stats =
        split_field process_identifier bytes_per_message add_stats byte_size.stats msg.conn_stats
          logs in
      let events =
        split_field process_identifier bytes_per_message add_event byte_size.event msg.events
          stats in
      let s = add_sub_message_to_q process_identifier events in (s.q, s.index)
