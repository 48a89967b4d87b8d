-- ===== src/Reporter/Schedule/Rounds.antt =====
-- src/nccl_stats_reporter.cc: a round calls the callbacks that are due, in order, and the wait after it
-- ends no later than the next one is due.
use gpuviz.Base.{
  ℕ, suc, ◌+◌, ◌-◌, ◌≤◌, ◌≡◌, ◌∙◌, refl, ap, Bool, true, false, ltb, Option, none, some, List, [],
  ◌∷◌, if◌then◌else◌, Bool-cases, inl, inr, ◌⊎◌, arith,
}
use gpuviz.Reporter.Schedule.{
  Callback, earlier, is_due, next_time, invoke_callbacks, duration_to_next_call,
  invoke_callbacks_and_return_duration_to_next_callback,
}

duration_lem :
    (e time_now : ℕ)
    → (w : ℕ) × (duration_to_next_call (some e) time_now ≡ some w) × (e ≤ time_now + w)
unfolding duration_to_next_call
duration_lem e time_now = elim (Bool-cases (ltb e time_now)) [
  | inl less ↦ (0, rw less refl, ground arith)
  | inr not_less ↦ (e - time_now, rw not_less refl, ground arith)
]

module _ {C : Type 0} where
  -- The callbacks that are due at their turn, in the order of the list.
  pub due_callbacks : (ℕ → ℕ) → ℕ → List (Callback C) → List C
  due_callbacks clock i [] = []
  due_callbacks clock i (cb ∷ cbs) =
      let rest = due_callbacks clock (suc i) cbs in
      if is_due (clock i) cb then cb.callback ∷ rest else rest

  abbrev pub run_all : {S : Type 0} → (C → S → S) → List C → S → S
  run_all run [] s = s
  run_all run (c ∷ cs) s = run_all run cs (run c s)

  -- The callbacks after a round.
  pub rescheduled : (ℕ → ℕ) → ℕ → List (Callback C) → List (Callback C)
  rescheduled clock i [] = []
  rescheduled clock i (cb ∷ cbs) = next_time (clock i) cb ∷ rescheduled clock (suc i) cbs

  -- The earliest of the times, and of the time so far.
  abbrev pub earliest : Option ℕ → List (Callback C) → Option ℕ
  earliest m [] = m
  earliest m (cb ∷ cbs) = earliest (earlier m cb.time_to_invoke) cbs

  run_if :
      {S : Type 0} (run : C → S → S) (due : Bool) (c : C) (cs : List C) (s : S)
      → run_all run cs (if due then run c s else s) ≡ run_all run (if due then c ∷ cs else cs) s
  run_if run true c cs s = refl
  run_if run false c cs s = refl

  invoke_callbacks_lem :
      {S : Type 0} (run : C → S → S) (clock : ℕ → ℕ) (i : ℕ) (m : Option ℕ)
      (cbs : List (Callback C)) (s : S)
      → invoke_callbacks run clock i m cbs s ≡ (
        rescheduled clock i cbs,
        run_all run (due_callbacks clock i cbs) s,
        earliest m (rescheduled clock i cbs),
      )
  unfolding invoke_callbacks rescheduled due_callbacks
  invoke_callbacks_lem run clock i m [] s = refl
  invoke_callbacks_lem run clock i m (cb ∷ cbs) s = simp (
    invoke_callbacks_lem run clock (suc i) (earlier m (next_time (clock i) cb).time_to_invoke) cbs
        (if is_due (clock i) cb then run cb.callback s else s),
    run_if run (is_due (clock i) cb) cb.callback (due_callbacks clock (suc i) cbs) s,
  )

  -- Some callback of the list is due at the time `t`.
  abbrev SomeDue : ℕ → List (Callback C) → Type 0
  SomeDue t [] = ⊥
  SomeDue t (cb ∷ cbs) = (cb.time_to_invoke ≤ t) ⊎ SomeDue t cbs

  -- The earliest time is that of a callback, or the time so far.
  earliest-SomeDue :
      (m0 : ℕ) (cbs : List (Callback C))
      → (e : ℕ) × (earliest (some m0) cbs ≡ some e) × ((t : ℕ) → e ≤ t → (m0 ≤ t) ⊎ SomeDue t cbs)
  earliest-SomeDue m0 [] = (m0, refl, λ t h. inl h)
  earliest-SomeDue m0 (cb ∷ cbs) = elim (Bool-cases (ltb cb.time_to_invoke m0)) [
    | inl less ↦
        (let (e, p, f) = earliest-SomeDue cb.time_to_invoke cbs in
          (e, rw less p, λ t h. elim (f t h) [ inl x ↦ inr (inl x) | inr y ↦ inr (inr y) ]))
    | inr not_less ↦
        (let (e, p, f) = earliest-SomeDue m0 cbs in
          (e, rw not_less p, λ t h. elim (f t h) [ inl x ↦ inl x | inr y ↦ inr (inr y) ]))
  ]

  -- A callback that is due when a round starts is called in it.
  SomeDue-due :
      (clock : ℕ → ℕ) (i t : ℕ) (cbs : List (Callback C))
      → ((j : ℕ) → t ≤ clock j)
      → SomeDue t cbs
      → (c : C) × (cs : List C) × (due_callbacks clock i cbs ≡ c ∷ cs)
  unfolding due_callbacks
  SomeDue-due clock i t [] h d = elim d [ ]
  SomeDue-due clock i t (cb ∷ cbs) h (inl x) =
      let e : is_due (clock i) cb ≡ true = ground (arith, h i) in
      (cb.callback, due_callbacks clock (suc i) cbs, rw e refl)
  SomeDue-due clock i t (cb ∷ cbs) h (inr y) = elim (Bool-cases (is_due (clock i) cb)) [
    | inl e ↦ (cb.callback, due_callbacks clock (suc i) cbs, rw e refl)
    | inr e ↦ (let (c, cs, p) = SomeDue-due clock (suc i) t cbs h y in (c, cs, rw e p))
  ]

  -- A round calls just the callbacks that are due at their turn, in the order of the list; each of
  -- these is due again one interval after it was found to be due, and the others when they were.
  pub round_lem :
      {S : Type 0} (run : C → S → S) (clock : ℕ → ℕ) (time_now : ℕ) (cbs : List (Callback C))
      (s : S)
      → invoke_callbacks_and_return_duration_to_next_callback run clock time_now cbs s ≡ (
        rescheduled clock 0 cbs,
        run_all run (due_callbacks clock 0 cbs) s,
        duration_to_next_call (earliest none (rescheduled clock 0 cbs)) time_now,
      )
  unfolding invoke_callbacks_and_return_duration_to_next_callback
  round_lem run clock time_now cbs s = simp (invoke_callbacks_lem run clock 0 none cbs s)

  -- With a callback in the list, the wait after a round is finite, and if the next round starts when
  -- it is over, or later, then that round calls a callback: the reporter never sleeps past the time of
  -- the next callback, whatever the clock says and whatever the callbacks do.
  pub next_round_calls :
      {S : Type 0} (run : C → S → S) (clock clock' : ℕ → ℕ) (time_now time_now' : ℕ)
      (cb : Callback C) (cbs : List (Callback C)) (s : S)
      → let (cbs', s', duration) =
          invoke_callbacks_and_return_duration_to_next_callback run clock time_now (cb ∷ cbs) s in
        ((w : ℕ) → duration ≡ some w → (j : ℕ) → time_now + w ≤ clock' j)
        → (w : ℕ) × (c : C) × (cs : List C) × (duration ≡ some w)
          × ((invoke_callbacks_and_return_duration_to_next_callback run clock' time_now' cbs' s').1
              ≡ run_all run (c ∷ cs) s')
  unfolding rescheduled
  next_round_calls run clock clock' time_now time_now' cb cbs s woken =
      let first = next_time (clock 0) cb in
      let rest = rescheduled clock 1 cbs in
      let r = round_lem run clock time_now (cb ∷ cbs) s in
      let (e, p, f) = earliest-SomeDue first.time_to_invoke rest in
      let (w, d, le) = duration_lem e time_now in
      let wait : (invoke_callbacks_and_return_duration_to_next_callback run clock time_now
            (cb ∷ cbs) s).2
          ≡ some w =
        ap (λ t. t.2) r ∙ ap (λ m. duration_to_next_call m time_now) p ∙ d in
      let (c, cs, q) =
        SomeDue-due clock' 0 (time_now + w) (first ∷ rest) (woken w wait) (f (time_now + w) le) in
      let s' =
        (invoke_callbacks_and_return_duration_to_next_callback run clock time_now (cb ∷ cbs) s).1 in
      (
        w,
        c,
        cs,
        wait,
        ap
              (λ l.
                (invoke_callbacks_and_return_duration_to_next_callback run clock' time_now' l s').1)
              (ap (λ t. t.0) r)
            ∙ ap (λ t. t.1) (round_lem run clock' time_now' (first ∷ rest) s')
            ∙ ap (λ l. run_all run l s') q,
      )
