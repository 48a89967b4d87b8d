-- ===== src/Executor/Tests.antt =====
-- Runs of src/nccl_stats_uploader_executor.cc: an entry is a number, which is its size.
use gpuviz.Base.{
  ℕ, ◌≡◌, refl, true, false, some, List, [], ◌∷◌, ◌++◌, map, length, ◌<◌, ◌≤◌, inl, inr, arith,
}
use gpuviz.Executor.{
  AllStats, ByteSize, split_all_stats_message_into_q, split_field, split_entries, split_entry,
  move_to, add_sub_message_to_q,
}
use gpuviz.Executor.Split.Order.{StandsIn, split-keeps_entries}
use gpuviz.Executor.Split.Size.{Exceeds, split-Exceeds}
use gpuviz.Executor.Split.Numbers.{Numbered, split-Numbered}
use gpuviz.Executor.Loop.{UploadResult, Executor, ThreadState, started, update_queue, thread_step}
use gpuviz.Executor.Loop.Thread.{delivered}
use gpuviz.Executor.Loop.Delivery.{
  System, Reachable, initial, step, queue_updated, IsValid, chunks, taken, Reachable-IsValid,
  thread_never_faults,
}

abbrev sizes : ByteSize ℕ ℕ ℕ
sizes = record { log = λ n. n; stats = λ n. n; event = λ n. n }

abbrev message : AllStats ℕ ℕ ℕ
message = record {
  events_log = 1 ∷ 2 ∷ [];
  conn_stats = 9 ∷ 3 ∷ [];
  events = 4 ∷ [];
  source_process_identifier = "";
  upload_index = 0;
}

chunks_of_5 :
    map {B = List ℕ × List ℕ × List ℕ × ℕ}
      (λ m. (m.events_log, m.conn_stats, m.events, m.upload_index))
      (split_all_stats_message_into_q sizes "p" 7 5 message).0
    ≡ (2 ∷ 1 ∷ [], 3 ∷ 9 ∷ [], [], 7)
      ∷ ([], [], [], 8)
      ∷ ([], [], 4 ∷ [], 9)
      ∷ ([], [], [], 10)
      ∷ []
unfolding split_all_stats_message_into_q split_field split_entries split_entry move_to
    add_sub_message_to_q
chunks_of_5 = refl

split-keeps_entries_example :
    let q = (split_all_stats_message_into_q sizes "p" 7 5 message).0 in
    (i : ℕ) × (k : ℕ) × (i ≤ k)
    × StandsIn (λ m. m.events_log) 0 (2 ∷ 1 ∷ []) q
    × StandsIn (λ m. m.conn_stats) i (3 ∷ 9 ∷ []) q
    × StandsIn (λ m. m.events) k (4 ∷ []) q
split-keeps_entries_example = split-keeps_entries sizes "p" 7 5 message

-- A limit that every single entry keeps to.
split-Exceeds_example : Exceeds sizes 10 (split_all_stats_message_into_q sizes "p" 7 10 message).0
split-Exceeds_example = split-Exceeds sizes "p" 7 10 message (inr (inl (omega arith)))

split-Numbered_example :
    let (q, next) = split_all_stats_message_into_q sizes "p" 7 5 message in
    Numbered "p" 7 next q × (0 < length q)
split-Numbered_example = split-Numbered sizes "p" 7 5 message

abbrev start : System ℕ ℕ ℕ
start = record {
  thread = started;
  executor = record {
    has_uploader = true;
    uploader_is_dead = false;
    last_upload_success = true;
    q = [];
    shutdown = false;
    source_process_identifier = "p";
    index = 0;
  };
  accepted = [];
  uploaded = [];
}

-- The reporter has queued a message.
abbrev updated : System ℕ ℕ ℕ
updated = record start {
  executor = (update_queue sizes 5 6 message start.executor).1;
  accepted =
      []
      ++ taken (update_queue sizes 5 6 message start.executor).0
          (chunks sizes 5 6 message start.executor);
}

updated-Reachable : Reachable updated
updated-Reachable = step (initial (refl, refl, refl, refl)) (queue_updated sizes 5 6 message)

Reachable-IsValid_example : IsValid updated
Reachable-IsValid_example = Reachable-IsValid updated updated-Reachable

thread_never_faults_example :
    let r : UploadResult = record { upload_ok = true; is_dead = false } in
    (t : ThreadState ℕ ℕ ℕ) × (e : Executor ℕ ℕ ℕ) × (thread_step r started updated.executor
      ≡ some (t, e))
    × IsValid (record updated { thread = t; executor = e; uploaded = [] ++ delivered r started })
thread_never_faults_example =
    thread_never_faults updated (record { upload_ok = true; is_dead = false }) updated-Reachable
