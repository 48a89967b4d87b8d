-- ===== src/Executor/Loop.antt =====
-- src/nccl_stats_uploader_executor.cc: the queue, which the reporter fills and the thread of
-- `RunUploadExecutor` empties. A step is what the thread does between two waits or calls, or under
-- one lock; `uploader_->Upload` and `IsDead` are the other side of an interface, and what they answer
-- comes with each step. A moved-out element of the queue is `none`, and to read it or to take the
-- front of an empty queue is a fault. The log, and what `Shutdown` does after the thread has ended,
-- are not modelled; `NextUploadTime` says only when the timeout is over, which may be at any time.
-- The two locked blocks after a failed upload are one step: between them the queue is not empty, so that
-- `UpdateQueue` refuses there as it does before and after.
pub mod Thread
pub mod Delivery
pub mod Accepts
use Prim.Native.String.{String}
use gpuviz.Base.{
  ℕ, ◌≡◌, Bool, true, false, Option, none, some, List, [], ◌∷◌, ◌++◌, map, not, ◌||◌, if◌then◌else◌,
}
use gpuviz.Base.Faults.{◌>>=◌, Status, ok, failed_precondition}
use gpuviz.Executor.{AllStats, ByteSize, empty_message, add_log, split_all_stats_message_into_q}

-- What `Upload` returns, and whether `IsDead` holds after it.
pub record UploadResult : Type 0 where
  pub upload_ok : Bool
  pub is_dead : Bool

-- The members; `index_` and the queue are those of the reporter's side.
pub record Executor (L C E : Type 0) : Type 0 where
  pub has_uploader : Bool
  pub uploader_is_dead : Bool
  pub last_upload_success : Bool
  pub q : List (Option (AllStats L C E))
  pub shutdown : Bool
  pub source_process_identifier : String
  pub index : ℕ

-- Where the upload thread stands. `uploading` and `uploading_last` hold the local buffer `m`.
pub data ThreadState (L C E : Type 0) : Type 0 where
  started waiting_for_work waiting_for_timeout exiting taking_last finished : ThreadState L C E
  uploading : AllStats L C E → ThreadState L C E
  uploading_last : Option (AllStats L C E) → ThreadState L C E

abbrev pub is_empty : {A : Type 0} → List A → Bool
is_empty [] = true
is_empty (x ∷ xs) = false

module _ {L C E : Type 0} where
  pub upload_finished : Executor L C E → Bool
  upload_finished e =
      if not e.has_uploader || e.uploader_is_dead then true else e.shutdown || is_empty e.q

  pub update_queue :
      ByteSize L C E → ℕ → L → AllStats L C E → Executor L C E → Status × Executor L C E
  update_queue byte_size max_message_byte_size upload_start_message m e =
      let (q, index) =
        split_all_stats_message_into_q byte_size e.source_process_identifier e.index
          max_message_byte_size (add_log upload_start_message m) in
      if not e.has_uploader
      then (failed_precondition, e)
      else if is_empty e.q
      then (ok, record e { q = map some q; index = index })
      else (failed_precondition, record e { index = index })

  pub should_wake_up : Executor L C E → Bool
  should_wake_up e = e.shutdown || not (is_empty e.q)

  -- `m = std::move(q_.front())`, dereferenced by `Upload(*m)`.
  pub take_front : Executor L C E → Option (AllStats L C E × Executor L C E)
  take_front e = elim e.q [
    | [] ↦ none
    | front ∷ rest ↦ front >>= λ m. some (m, record e { q = none ∷ rest })
  ]

  pub pop : Executor L C E → Option (Executor L C E)
  pop e = elim e.q [ [] ↦ none | front ∷ rest ↦ some (record e { q = rest }) ]

  -- `q_.front() = std::move(m)`.
  pub put_back : AllStats L C E → Executor L C E → Option (Executor L C E)
  put_back m e = elim e.q [ [] ↦ none | front ∷ rest ↦ some (record e { q = some m ∷ rest }) ]

  -- What follows `uploader_->Upload(*m)` in the loop.
  pub after_upload :
      UploadResult → AllStats L C E → Executor L C E → Option (ThreadState L C E × Executor L C E)
  unfolding pop put_back
  after_upload r m e =
      if r.upload_ok
      then (do
        e' ← pop (record e { uploader_is_dead = r.is_dead })
        some (waiting_for_work, record e' { last_upload_success = true }))
      else (do
        e' ← put_back m (record e { uploader_is_dead = r.is_dead })
        some (
            if r.is_dead
            then (exiting, record e' { last_upload_success = false; shutdown = true })
            else (waiting_for_work, record e' { last_upload_success = false })))

  -- The two locked blocks at the start of `UploadAndCleanupRemainingTelemetryOnShutdown`.
  pub enter_cleanup : Executor L C E → ThreadState L C E × Executor L C E
  enter_cleanup e =
      if not e.last_upload_success || (not e.has_uploader || e.uploader_is_dead)
      then (finished, record e { q = [] })
      else (taking_last, e)

  pub take_last : Executor L C E → ThreadState L C E × Executor L C E
  take_last e = elim e.q [
    | [] ↦ (uploading_last none, e)
    | front ∷ rest ↦ (uploading_last front, record e { q = none ∷ rest })
  ]

  -- A step of the thread; it stays where it is while it has to wait for work.
  pub thread_step :
      UploadResult
      → ThreadState L C E
      → Executor L C E
      → Option (ThreadState L C E × Executor L C E)
  unfolding should_wake_up take_front after_upload enter_cleanup take_last
  thread_step r started e =
      some
        (if not e.has_uploader || e.uploader_is_dead then (exiting, e) else (waiting_for_work, e))
  thread_step r waiting_for_work e = some (
      if not (should_wake_up e)
      then (waiting_for_work, e)
      else if e.shutdown
      then (exiting, e)
      else (waiting_for_timeout, e))
  thread_step r waiting_for_timeout e =
      if e.shutdown then some (exiting, e) else (do (m, e') ← take_front e; some (uploading m, e'))
  thread_step r (uploading m) e = after_upload r m e
  thread_step r exiting e = some (enter_cleanup e)
  thread_step r taking_last e = some (take_last e)
  thread_step r (uploading_last m) e =
      some (finished, record e { q = []; uploader_is_dead = r.is_dead })
  thread_step r finished e = some (finished, e)

  -- The message that is sent last: the front of the queue, or an empty one, with the shutdown entry.
  pub last_message : String → L → Option (AllStats L C E) → AllStats L C E
  last_message process_identifier shutdown_log_entry none =
      add_log shutdown_log_entry
        (record empty_message { source_process_identifier = process_identifier })
  last_message process_identifier shutdown_log_entry (some m) = add_log shutdown_log_entry m
