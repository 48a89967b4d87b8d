-- ===== src/Executor/Loop/Thread.antt =====
-- src/nccl_stats_uploader_executor.cc: what a step of the upload thread does with the messages that it and
-- the queue hold.
use gpuviz.Base.{
  ◌≡◌, refl, ap, ◌∙◌, true, false, none, some, List, [], ◌∷◌, ◌++◌, map, not, ◌||◌, if◌then◌else◌,
  inl, inr, Bool-cases,
}
use gpuviz.Executor.{AllStats}
use gpuviz.Executor.Loop.{
  UploadResult, Executor, ThreadState, started, waiting_for_work, waiting_for_timeout, exiting,
  taking_last, finished, uploading, uploading_last, should_wake_up, take_front, pop, put_back,
  after_upload, enter_cleanup, take_last, thread_step,
}

module _ {L C E : Type 0} where
  -- The message that a step has uploaded.
  pub delivered : UploadResult → ThreadState L C E → List (AllStats L C E)
  delivered r (uploading m) = if r.upload_ok then m ∷ [] else []
  delivered r (uploading_last (some m)) = if r.upload_ok then m ∷ [] else []
  delivered r _ = []

  -- The messages `pending` are those that the queue and the thread hold.
  unfoldable pub Holding : ThreadState L C E → Executor L C E → List (AllStats L C E) → Type 0
  Holding waiting_for_timeout e pending =
      (m : AllStats L C E) × (ms : List (AllStats L C E)) × (pending ≡ m ∷ ms)
      × (e.q ≡ map some pending)
  Holding (uploading m) e pending =
      (ms : List (AllStats L C E)) × (pending ≡ m ∷ ms) × (e.q ≡ none ∷ map some ms)
  Holding (uploading_last (some m)) e pending =
      (ms : List (AllStats L C E)) × (pending ≡ m ∷ ms) × (e.q ≡ none ∷ map some ms)
  Holding finished e pending = Unit
  Holding _ e pending = e.q ≡ map some pending

  -- Where a step of the thread leads from a state in which it holds `pending`.
  abbrev pub Leads :
      UploadResult → ThreadState L C E → Executor L C E → List (AllStats L C E) → Type 0
  Leads r t e pending =
      (t' : ThreadState L C E) × (e' : Executor L C E) × (rest : List (AllStats L C E))
      × (thread_step r t e ≡ some (t', e'))
      × (pending ≡ delivered r t ++ rest)
      × Holding t' e' rest

  Leads-work :
      (r : UploadResult) (e : Executor L C E) (pending : List (AllStats L C E))
      → e.q ≡ map some pending
      → Leads r waiting_for_work e pending
  unfolding Holding thread_step delivered should_wake_up
  Leads-work r e [] h = elim (Bool-cases e.shutdown) [
    | inl c ↦ (exiting, e, [], rw (h, c), refl, h)
    | inr c ↦ (waiting_for_work, e, [], rw (h, c), refl, h)
  ]
  Leads-work r e (m ∷ ms) h = elim (Bool-cases e.shutdown) [
    | inl c ↦ (exiting, e, m ∷ ms, rw (h, c), refl, h)
    | inr c ↦ (waiting_for_timeout, e, m ∷ ms, rw (h, c), refl, (m, ms, refl, h))
  ]

  Leads-timeout :
      (r : UploadResult) (e : Executor L C E) (pending : List (AllStats L C E))
      → Holding waiting_for_timeout e pending
      → Leads r waiting_for_timeout e pending
  unfolding Holding thread_step delivered take_front
  Leads-timeout r e pending (m, ms, hp, h) =
      let q_eq : e.q ≡ some m ∷ map some ms = h ∙ ap (map some) hp in
      elim (Bool-cases e.shutdown) [
        | inl c ↦ (exiting, e, pending, rw c, refl, h)
        | inr c ↦ (
          uploading m,
          record e { q = none ∷ map some ms },
          pending,
          rw (c, q_eq),
          refl,
          (ms, hp, refl),
        )
      ]

  Leads-uploading :
      (r : UploadResult) (m : AllStats L C E) (e : Executor L C E) (pending : List (AllStats L C E))
      → Holding (uploading m) e pending
      → Leads r (uploading m) e pending
  unfolding Holding thread_step delivered after_upload pop put_back
  Leads-uploading r m e pending (ms, hp, h) = elim (Bool-cases r.upload_ok) [
    | inl c ↦ (
      waiting_for_work,
      record e { uploader_is_dead = r.is_dead; q = map some ms; last_upload_success = true },
      ms,
      rw (c, h),
      rw c hp,
      refl,
    )
    | inr c ↦ elim (Bool-cases r.is_dead) [
      | inl d ↦ (
        exiting,
        record e {
          uploader_is_dead = r.is_dead;
          q = some m ∷ map some ms;
          last_upload_success = false;
          shutdown = true;
        },
        pending,
        rw (c, h, d),
        rw c,
        rw hp,
      )
      | inr d ↦ (
        waiting_for_work,
        record e {
          uploader_is_dead = r.is_dead;
          q = some m ∷ map some ms;
          last_upload_success = false;
        },
        pending,
        rw (c, h, d),
        rw c,
        rw hp,
      )
    ]
  ]

  Leads-exiting :
      (r : UploadResult) (e : Executor L C E) (pending : List (AllStats L C E))
      → e.q ≡ map some pending
      → Leads r exiting e pending
  unfolding Holding thread_step delivered enter_cleanup
  Leads-exiting r e pending h =
      elim (Bool-cases (not e.last_upload_success || (not e.has_uploader || e.uploader_is_dead))) [
        | inl c ↦ (finished, record e { q = [] }, pending, rw c, refl, tt)
        | inr c ↦ (taking_last, e, pending, rw c, refl, h)
      ]

  Leads-taking_last :
      (r : UploadResult) (e : Executor L C E) (pending : List (AllStats L C E))
      → e.q ≡ map some pending
      → Leads r taking_last e pending
  unfolding Holding thread_step delivered take_last
  Leads-taking_last r e [] h = (uploading_last none, e, [], rw h, refl, h)
  Leads-taking_last r e (m ∷ ms) h = (
    uploading_last (some m),
    record e { q = none ∷ map some ms },
    m ∷ ms,
    rw h,
    refl,
    (ms, refl, refl),
  )

  Leads-last :
      (r : UploadResult) (m : AllStats L C E) (e : Executor L C E) (pending : List (AllStats L C E))
      → Holding (uploading_last (some m)) e pending
      → Leads r (uploading_last (some m)) e pending
  unfolding Holding thread_step delivered
  Leads-last r m e pending (ms, hp, h) =
      let e' = record e { q = []; uploader_is_dead = r.is_dead } in
      elim (Bool-cases r.upload_ok) [
        | inl c ↦ (finished, e', ms, refl, rw c hp, tt)
        | inr c ↦ (finished, e', pending, refl, rw c, tt)
      ]

  pub leads :
      (r : UploadResult) (t : ThreadState L C E) (e : Executor L C E)
      (pending : List (AllStats L C E))
      → Holding t e pending
      → Leads r t e pending
  unfolding Holding thread_step delivered
  leads r started e pending h = elim (Bool-cases (not e.has_uploader || e.uploader_is_dead)) [
    | inl c ↦ (exiting, e, pending, rw c, refl, h)
    | inr c ↦ (waiting_for_work, e, pending, rw c, refl, h)
  ]
  leads r waiting_for_work e pending h = Leads-work r e pending h
  leads r waiting_for_timeout e pending h = Leads-timeout r e pending h
  leads r (uploading m) e pending h = Leads-uploading r m e pending h
  leads r exiting e pending h = Leads-exiting r e pending h
  leads r taking_last e pending h = Leads-taking_last r e pending h
  leads r (uploading_last none) e pending h =
      (finished, record e { q = []; uploader_is_dead = r.is_dead }, pending, refl, refl, tt)
  leads r (uploading_last (some m)) e pending h = Leads-last r m e pending h
  leads r finished e pending h = (finished, e, pending, refl, refl, tt)
