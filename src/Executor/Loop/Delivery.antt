-- ===== src/Executor/Loop/Delivery.antt =====
-- src/nccl_stats_uploader_executor.cc: what the upload thread does with the messages that
-- `UpdateQueue` accepts, in every interleaving of the thread, the reporter and a shutdown.
use mathlib.Core.List.{append-nil, append_assoc}
use gpuviz.Base.{
  ℕ, ◌≡◌, refl, sym, ap, ◌∙◌, true, Option, none, some, List, [], ◌∷◌, ◌++◌, map, inl, inr,
  Bool-cases,
}
use gpuviz.Base.Faults.{Status, ok}
use gpuviz.Executor.{AllStats, ByteSize, add_log, split_all_stats_message_into_q}
use gpuviz.Executor.Loop.{
  UploadResult, Executor, ThreadState, started, waiting_for_work, waiting_for_timeout, exiting,
  taking_last, finished, uploading, uploading_last, is_empty, update_queue, thread_step,
}
use gpuviz.Executor.Loop.Thread.{delivered, Holding, leads}

-- The thread and the members, with the messages that `UpdateQueue` has accepted so far and those that
-- have been uploaded, in order.
pub record System (L C E : Type 0) : Type 0 where
  pub thread : ThreadState L C E
  pub executor : Executor L C E
  pub accepted : List (AllStats L C E)
  pub uploaded : List (AllStats L C E)

empty_queue : {A : Type 0} (q : List A) → is_empty q ≡ true → q ≡ []
empty_queue [] h = refl
empty_queue (x ∷ q) h = absurd cc

module _ {L C E : Type 0} where
  -- The chunks of a message, and those that `UpdateQueue` takes.
  abbrev pub chunks :
      ByteSize L C E → ℕ → L → AllStats L C E → Executor L C E → List (AllStats L C E)
  chunks byte_size limit start m e =
      (split_all_stats_message_into_q byte_size e.source_process_identifier e.index limit
        (add_log start m)).0

  pub taken : Status → List (AllStats L C E) → List (AllStats L C E)
  taken ok q = q
  taken _ q = []

  pub data Step (s : System L C E) : System L C E → Type 0 where
    thread_moves :
        (r : UploadResult) (t : ThreadState L C E) (e : Executor L C E)
        → thread_step r s.thread s.executor ≡ some (t, e)
        → Step s
            (record s { thread = t; executor = e; uploaded = s.uploaded ++ delivered r s.thread })
    queue_updated :
        (byte_size : ByteSize L C E) (limit : ℕ) (start : L) (m : AllStats L C E)
        → Step s (record s {
          executor = (update_queue byte_size limit start m s.executor).1;
          accepted =
              s.accepted
              ++ taken
                  (update_queue byte_size limit start m s.executor).0
                  (chunks byte_size limit start m s.executor);
        })
    shut_down : Step s (record s { executor = record s.executor { shutdown = true } })

  -- The state after the constructor, with any uploader.
  abbrev pub IsInitial : System L C E → Type 0
  IsInitial s = (s.thread ≡ started) × (s.executor.q ≡ []) × (s.accepted ≡ []) × (s.uploaded ≡ [])

  pub data Reachable : System L C E → Type 0 where
    initial : {s : System L C E} → IsInitial s → Reachable s
    step : {s t : System L C E} → Reachable s → Step s t → Reachable t

  -- What was accepted is what was uploaded and then what is pending.
  pub IsValid : System L C E → Type 0
  unfolding Holding
  IsValid s =
      (pending : List (AllStats L C E)) × (s.accepted ≡ s.uploaded ++ pending)
      × Holding s.thread s.executor pending

  -- A step of the thread cannot take a message from an empty queue, or one that has been moved out.
  thread_step-total :
      (r : UploadResult) (s : System L C E)
      → IsValid s
      → (t : ThreadState L C E) × (e : Executor L C E) × (thread_step r s.thread s.executor
          ≡ some (t, e))
        × IsValid
            (record s { thread = t; executor = e; uploaded = s.uploaded ++ delivered r s.thread })
  unfolding IsValid
  thread_step-total r s (pending, ha, hh) =
      let (t', e', rest, he, hp, hr) = leads r s.thread s.executor pending hh in
      (
        t',
        e',
        he,
        (
          rest,
          ha
              ∙ ap (λ zs. s.uploaded ++ zs) hp
              ∙ sym (append_assoc s.uploaded (delivered r s.thread) rest),
          hr,
        ),
      )

  same_queue :
      (t : ThreadState L C E) (e e' : Executor L C E) (pending : List (AllStats L C E))
      → e'.q ≡ e.q
      → Holding t e pending
      → Holding t e' pending
  unfolding Holding
  same_queue started e e' pending k h = k ∙ h
  same_queue waiting_for_work e e' pending k h = k ∙ h
  same_queue waiting_for_timeout e e' pending k (m, ms, hp, h) = (m, ms, hp, k ∙ h)
  same_queue (uploading m) e e' pending k (ms, hp, h) = (ms, hp, k ∙ h)
  same_queue exiting e e' pending k h = k ∙ h
  same_queue taking_last e e' pending k h = k ∙ h
  same_queue (uploading_last none) e e' pending k h = k ∙ h
  same_queue (uploading_last (some m)) e e' pending k (ms, hp, h) = (ms, hp, k ∙ h)
  same_queue finished e e' pending k h = tt

  filled :
      (e e' : Executor L C E) (pending ms : List (AllStats L C E))
      → e.q ≡ []
      → e'.q ≡ map some ms
      → e.q ≡ map some pending
      → e'.q ≡ map some (pending ++ ms)
  filled e e' [] ms k l h = l
  filled e e' (m ∷ pending) ms k l h = cc

  -- A queue that was empty gets the chunks `ms`.
  queue_filled :
      (t : ThreadState L C E) (e e' : Executor L C E) (pending ms : List (AllStats L C E))
      → e.q ≡ []
      → e'.q ≡ map some ms
      → Holding t e pending
      → Holding t e' (pending ++ ms)
  unfolding Holding
  queue_filled started e e' pending ms k l h = filled e e' pending ms k l h
  queue_filled waiting_for_work e e' pending ms k l h = filled e e' pending ms k l h
  queue_filled waiting_for_timeout e e' pending ms k l (m, rest, hp, h) =
      let h' : e.q ≡ some m ∷ map some rest = h ∙ ap (map some) hp in absurd cc
  queue_filled (uploading m) e e' pending ms k l (rest, hp, h) = absurd cc
  queue_filled exiting e e' pending ms k l h = filled e e' pending ms k l h
  queue_filled taking_last e e' pending ms k l h = filled e e' pending ms k l h
  queue_filled (uploading_last none) e e' pending ms k l h = filled e e' pending ms k l h
  queue_filled (uploading_last (some m)) e e' pending ms k l (rest, hp, h) = absurd cc
  queue_filled finished e e' pending ms k l h = tt

  update-IsValid :
      (byte_size : ByteSize L C E) (limit : ℕ) (start : L) (m : AllStats L C E) (s : System L C E)
      → IsValid s
      → IsValid (record s {
        executor = (update_queue byte_size limit start m s.executor).1;
        accepted =
            s.accepted
            ++ taken
                (update_queue byte_size limit start m s.executor).0
                (chunks byte_size limit start m s.executor);
      })
  unfolding IsValid update_queue taken
  update-IsValid byte_size limit start m s (pending, ha, hh) =
      elim (Bool-cases s.executor.has_uploader) [
        | inr c ↦ (
          pending,
          rw c (append-nil s.accepted ∙ ha),
          rw c (same_queue s.thread s.executor _ pending refl hh),
        )
        | inl c ↦ elim (Bool-cases (is_empty s.executor.q)) [
          | inl d ↦
              let ms = chunks byte_size limit start m s.executor in
              (
                pending ++ ms,
                rw (c, d) (ap (λ zs. zs ++ ms) ha ∙ append_assoc s.uploaded pending ms),
                rw (c, d)
                    (queue_filled s.thread s.executor _ pending ms (empty_queue s.executor.q d) refl
                      hh),
              )
          | inr d ↦ (
            pending,
            rw (c, d) (append-nil s.accepted ∙ ha),
            rw (c, d) (same_queue s.thread s.executor _ pending refl hh),
          )
        ]
      ]

  -- In every interleaving of the upload thread, of `UpdateQueue` and of a shutdown, and whatever the
  -- uploader answers: the messages that were accepted are, in order, those that were uploaded, once
  -- each, and then those that the thread's buffer and the queue still hold. A message in the buffer
  -- has left a null pointer at the front of the queue; the queue has no other, and is not empty while
  -- the thread waits for its timeout. Once the thread has ended, what was uploaded is still a prefix
  -- of what was accepted.
  pub Reachable-IsValid : (s : System L C E) → Reachable s → IsValid s
  unfolding IsValid Holding
  Reachable-IsValid s (initial (ht, hq, ha, hu)) = ([], rw (ha, hu) refl, rw ht hq)
  Reachable-IsValid t (step {s = s} r (thread_moves u t' e' h)) =
      let v = Reachable-IsValid s r in
      let n = thread_step-total u s v in
      let same : ◌≡◌ {A = Option (ThreadState L C E × Executor L C E)} (some (n.0, n.1))
          (some (t', e')) =
        sym n.2 ∙ h in
      let same_thread : n.0 ≡ t' = cc in
      let same_executor : n.1 ≡ e' = cc in rw (← same_thread, ← same_executor) n.3
  Reachable-IsValid t (step {s = s} r (queue_updated byte_size limit start m)) =
      update-IsValid byte_size limit start m s (Reachable-IsValid s r)
  Reachable-IsValid t (step {s = s} r shut_down) =
      let v = Reachable-IsValid s r in (v.0, v.1, same_queue s.thread s.executor _ v.0 refl v.2)

  -- In every reachable state the thread's next step is defined, whatever the uploader answers: it
  -- reads the front of the queue only where there is one, and never follows a null pointer; and the
  -- state after it is as well formed as before.
  pub thread_never_faults :
      (s : System L C E) (r : UploadResult)
      → Reachable s
      → (t : ThreadState L C E) × (e : Executor L C E) × (thread_step r s.thread s.executor
          ≡ some (t, e))
        × IsValid
            (record s { thread = t; executor = e; uploaded = s.uploaded ++ delivered r s.thread })
  thread_never_faults s r h = thread_step-total r s (Reachable-IsValid s h)
