-- ===== src/Executor/Loop/Accepts.antt =====
-- src/nccl_stats_uploader_executor.cc: when `UploadFinished` holds, and what `UpdateQueue` then does.
use gpuviz.Base.{ℕ, ◌≡◌, true, false, Option, some, List, [], ◌∷◌, map, Bool-cases, inl, inr}
use gpuviz.Base.Faults.{ok}
use gpuviz.Executor.{AllStats, ByteSize, add_log, split_all_stats_message_into_q}
use gpuviz.Executor.Loop.{Executor, upload_finished, update_queue}

module _ {L C E : Type 0} where
  -- The chunks of a message, and the next upload index.
  abbrev pub chunks :
      Executor L C E → ByteSize L C E → ℕ → L → AllStats L C E → List (AllStats L C E) × ℕ
  chunks e byte_size max_message_byte_size upload_start_message m =
      split_all_stats_message_into_q byte_size e.source_process_identifier e.index
        max_message_byte_size (add_log upload_start_message m)

module _ {L C E : Type 0} (e : Executor L C E) (uploader : e.has_uploader ≡ true) where
  pub update_queue-empty :
      (byte_size : ByteSize L C E) (max_message_byte_size : ℕ) (upload_start_message : L)
      (m : AllStats L C E)
      → e.q ≡ []
      → let (q, index) = chunks e byte_size max_message_byte_size upload_start_message m in
        update_queue byte_size max_message_byte_size upload_start_message m e
        ≡ (ok, record e { q = map some q; index = index })
  unfolding update_queue
  update_queue-empty byte_size max_message_byte_size upload_start_message m h = simp (uploader, h)

  pub upload_finished-empty : e.q ≡ [] → e.uploader_is_dead ≡ false → upload_finished e ≡ true
  unfolding upload_finished
  upload_finished-empty h alive = elim (Bool-cases e.shutdown) [
    | inl s ↦ simp (uploader, alive, h, s)
    | inr s ↦ simp (uploader, alive, h, s)
  ]

  -- While there is something to upload, and a live uploader, it has not finished.
  pub upload_finished-busy :
      (x : Option (AllStats L C E)) (xs : List (Option (AllStats L C E)))
      → e.q ≡ x ∷ xs
      → e.uploader_is_dead ≡ false
      → e.shutdown ≡ false
      → upload_finished e ≡ false
  unfolding upload_finished
  upload_finished-busy x xs h alive running = simp (uploader, alive, running, h)
