-- ===== src/Aggregator/Queues.antt =====
-- src/nccl_stats_aggregator.cc: the queues of log entries and of marshalled events, `addLogMsg`,
-- `addEvent`, and the part of `readTelemetry` that empties them. Sizes are `size_t`. The space that a
-- log entry takes is protobuf's `SpaceUsedLong`, and the parsing of an event is protobuf's too: both
-- are parameters. The text of a log entry and the call of the log function are not modelled.
pub mod Bounded
use gpuviz.Base.{
  ℕ, Bool, true, false, leb, Option, none, some, List, [], ◌∷◌, ◌++◌, length, if◌then◌else◌,
}
use gpuviz.Base.Words.{add_u64}
use gpuviz.Base.Faults.{Status, ok, data_loss}

-- An event is a vector of bytes.
pub record EventQueues (L : Type 0) : Type 0 where
  pub log_messages : List L
  pub log_messages_size : ℕ
  pub events : List (List ℕ)
  pub events_size : ℕ
  pub non_aggregated_data_size_cap : ℕ

module _ {L : Type 0} where
  pub empty_queues : ℕ → EventQueues L
  empty_queues cap = record {
    log_messages = [];
    log_messages_size = 0;
    events = [];
    events_size = 0;
    non_aggregated_data_size_cap = cap;
  }

  pub add_log_msg : (L → ℕ) → L → EventQueues L → EventQueues L
  add_log_msg space_used entry q =
      let size = add_u64 q.log_messages_size (space_used entry) in
      if leb size q.non_aggregated_data_size_cap
      then record q { log_messages = q.log_messages ++ (entry ∷ []); log_messages_size = size }
      else q

  pub add_event : List ℕ → EventQueues L → Status × EventQueues L
  add_event event_data q =
      let size = add_u64 q.events_size (length event_data) in
      if leb size q.non_aggregated_data_size_cap
      then (ok, record q { events = q.events ++ (event_data ∷ []); events_size = size })
      else (data_loss, q)

  pub read_logs : EventQueues L → List L × EventQueues L
  read_logs q = (q.log_messages, record q { log_messages = []; log_messages_size = 0 })

  -- The events that can be parsed, and a log message for each of the others.
  pub parse_events :
      {E : Type 0}
      → (L → ℕ)
      → (List ℕ → Option E)
      → L
      → List (List ℕ)
      → EventQueues L
      → List E × EventQueues L
  parse_events space_used parse failed [] q = ([], q)
  parse_events space_used parse failed (e ∷ es) q = elim (parse e) [
    | none ↦ parse_events space_used parse failed es (add_log_msg space_used failed q)
    | some x ↦ (let (xs, q') = parse_events space_used parse failed es q in (x ∷ xs, q'))
  ]

  -- The two last blocks of `readTelemetry`.
  pub read_queues :
      {E : Type 0}
      → (L → ℕ)
      → (List ℕ → Option E)
      → L
      → EventQueues L
      → (List L × List E) × EventQueues L
  read_queues space_used parse failed q =
      let (logs, q1) = read_logs q in
      let q2 = record q1 { events = []; events_size = 0 } in
      let (events, q3) = parse_events space_used parse failed q.events q2 in ((logs, events), q3)

-- The calls, in any order.
pub data Call (L : Type 0) : Type 0 where
  log : L → Call L
  event : List ℕ → Call L
  read : Call L

-- What a caller sees of a call.
pub data Reply (L E : Type 0) : Type 0 where
  logged : Reply L E
  answered : Status → Reply L E
  reported : List L → List E → Reply L E

module _ {L E : Type 0} (space_used : L → ℕ) (parse : List ℕ → Option E) (failed : L) where
  pub call : Call L → EventQueues L → Reply L E × EventQueues L
  call (log entry) q = (logged, add_log_msg space_used entry q)
  call (event e) q = let (s, q') = add_event e q in (answered s, q')
  call read q =
      let ((logs, events), q') = read_queues space_used parse failed q in (reported logs events, q')

  pub calls : List (Call L) → EventQueues L → List (Reply L E) × EventQueues L
  calls [] q = ([], q)
  calls (c ∷ cs) q = let (r, q1) = call c q in let (rs, q2) = calls cs q1 in (r ∷ rs, q2)
