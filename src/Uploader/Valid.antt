-- ===== src/Uploader/Valid.antt =====
-- src/nccl_uploader.cc: the attempts stay below their limits as long as the uploader lives, and a dead
-- one has no client and never uploads again.
use gpuviz.Base.{
  ℕ, suc, ◌+◌, ◌≤◌, ◌<◌, ◌≡◌, refl, Bool, true, false, not, ◌&&◌, none, some, leb, ◌⊎◌, inl, inr,
  Bool-cases, arith,
}
use gpuviz.Base.Faults.{StatusOr-cases, internal, failed_precondition}
use gpuviz.Double.{DoubleOps}
use gpuviz.Uploader.{
  at, infinite, Uploader, Answers, is_ok, before, calculate_backoff, give_up_retry, upload_message,
  create_client_and_upload_message, client_is_alive, upload,
}

pub leb-false : (a b : ℕ) → leb a b ≡ false → b < a
leb-false a b h = ground arith

module _ {D : Type 0} where
  abbrev pub max_sends : Uploader D → ℕ
  max_sends u = u.send_messages_backoff.max_attempts

  abbrev pub max_creates : Uploader D → ℕ
  max_creates u = u.create_client_backoff.max_attempts

  -- An uploader that lives has attempts left of both kinds; a dead one has no client, and its next
  -- upload is in the infinite future.
  pub data IsValid (u : Uploader D) : Type 0 where
    alive :
        u.is_dead ≡ false
        → u.attempts_send_message < max_sends u
        → u.attempts_create_client < max_creates u
        → IsValid u
    dead : u.is_dead ≡ true → u.client ≡ none → u.next_execute_time ≡ infinite → IsValid u

module _ {D : Type 0} ⦃o : DoubleOps D⦄ (milliseconds : D → ℕ) where
  -- How a call of the client ends: all retries are exhausted, or the next upload is not before `low`.
  pub data Ended (low : ℕ) (u : Uploader D) : Type 0 where
    given_up : u.is_dead ≡ true → u.client ≡ none → u.next_execute_time ≡ infinite → Ended low u
    waits : {t : ℕ} → u.is_dead ≡ false → u.next_execute_time ≡ at t → low ≤ t → Ended low u

  -- What `UploadMessage` leaves, with the attempts counted.
  pub upload_message_lem :
      (a : Answers D) (u : Uploader D)
      → u.is_dead ≡ false
      → u.attempts_send_message < max_sends u
      → u.attempts_create_client < max_creates u
      → let u' = (upload_message milliseconds a u).1 in
        IsValid u'
        × Ended (a.current_time + u.min_wait) u'
        × ((is_ok a.send_status ≡ true) × (u'.attempts_send_message ≡ 0)
            ⊎ ((is_ok a.send_status ≡ false)
                × (u'.attempts_send_message ≡ suc u.attempts_send_message)))
        × (u'.attempts_create_client ≡ u.attempts_create_client)
        × (max_sends u' ≡ max_sends u)
        × (max_creates u' ≡ max_creates u)
  unfolding upload_message give_up_retry calculate_backoff
  upload_message_lem a u h k l = elim (Bool-cases (is_ok a.send_status)) [
    | inl e ↦
        rw e
          (alive h (omega arith) l, waits h refl (omega arith), inl (refl, refl), refl, refl, refl)
    | inr e ↦ elim (Bool-cases (leb (max_sends u) (suc u.attempts_send_message))) [
      | inl f ↦
          rw (e, f)
            (dead refl refl refl, given_up refl refl refl, inr (refl, refl), refl, refl, refl)
      | inr f ↦
          let below = leb-false (max_sends u) (suc u.attempts_send_message) f in
          rw (e, f)
            (alive h below l, waits h refl (omega arith), inr (refl, refl), refl, refl, refl)
    ]
  ]

  create_client_lem :
      (a : Answers D) (u : Uploader D)
      → u.is_dead ≡ false
      → u.attempts_send_message < max_sends u
      → u.attempts_create_client < max_creates u
      → let u' = (create_client_and_upload_message milliseconds a u).1 in
        IsValid u' × (max_sends u' ≡ max_sends u) × (max_creates u' ≡ max_creates u)
  unfolding create_client_and_upload_message give_up_retry calculate_backoff
  create_client_lem a u h k l = elim (StatusOr-cases a.created) [
    | inl (c, e) ↦
        let u1 = record u {
          first_client_creation_done = true;
          client = some c;
          min_wait = c.min_wait;
          attempts_create_client = 0;
        } in
        let r = upload_message_lem a u1 h k (omega arith) in rw e (r.0, r.4, r.5)
    | inr (e', e) ↦ elim (Bool-cases (leb (max_creates u) (suc u.attempts_create_client))) [
      | inl f ↦ rw (e, f) (dead refl refl refl, refl, refl)
      | inr f ↦
          rw (e, f)
            (alive h k (leb-false (max_creates u) (suc u.attempts_create_client) f), refl, refl)
    ]
  ]

  -- The four ways through `Upload`.
  pub upload-cases :
      (ignore : Bool) (a : Answers D) (u : Uploader D)
      → let r = upload milliseconds ignore a u in
        ((u.is_dead ≡ true) × (r ≡ (internal, u)))
        ⊎ ((u.is_dead ≡ false)
            × ((not ignore && before a.start_time u.next_execute_time) ≡ true)
            × (r ≡ (failed_precondition, u)))
        ⊎ ((u.is_dead ≡ false)
            × (client_is_alive a u ≡ true)
            × (r ≡ upload_message milliseconds a u))
        ⊎ ((u.is_dead ≡ false) × (r ≡ create_client_and_upload_message milliseconds a u))
  unfolding upload
  upload-cases ignore a u = elim (Bool-cases u.is_dead) [
    | inl h ↦ inl (h, simp h)
    | inr h ↦ elim (Bool-cases (not ignore && before a.start_time u.next_execute_time)) [
      | inl e ↦ inr (inl (h, e, simp (h, e)))
      | inr e ↦ elim (Bool-cases (client_is_alive a u)) [
        | inl f ↦ inr (inr (inl (h, f, simp (h, e, f))))
        | inr f ↦ inr (inr (inr (h, simp (h, e, f))))
      ]
    ]
  ]

  -- Whatever the clock, the client and its creator answer, a call of `Upload` leaves an uploader that
  -- lives with attempts left of both kinds, or one that is dead, with no client and the next upload in
  -- the infinite future; a dead uploader stays as it is and answers an internal error; and the limits
  -- on attempts do not change.
  pub upload-IsValid :
      (ignore : Bool) (a : Answers D) (u : Uploader D)
      → IsValid u
      → let (s, u') = upload milliseconds ignore a u in
        IsValid u'
        × (max_sends u' ≡ max_sends u)
        × (max_creates u' ≡ max_creates u)
        × ((u.is_dead ≡ false) ⊎ ((u' ≡ u) × (s ≡ internal)))
  upload-IsValid ignore a u (dead h c n) = elim (upload-cases ignore a u) [
    | inl (_, r) ↦ rw r (dead h c n, refl, refl, inr (refl, refl))
    | inr (inl (k, _, r)) ↦ absurd cc
    | inr (inr (inl (k, _, r))) ↦ absurd cc
    | inr (inr (inr (k, r))) ↦ absurd cc
  ]
  upload-IsValid ignore a u (alive h k l) = elim (upload-cases ignore a u) [
    | inl (g, r) ↦ absurd cc
    | inr (inl (_, _, r)) ↦ rw r (alive h k l, refl, refl, inl h)
    | inr (inr (inl (_, _, r))) ↦
        let m = upload_message_lem a u h k l in rw r (m.0, m.4, m.5, inl h)
    | inr (inr (inr (_, r))) ↦ let m = create_client_lem a u h k l in rw r (m.0, m.1, m.2, inl h)
  ]
