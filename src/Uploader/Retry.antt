-- ===== src/Uploader/Retry.antt =====
-- src/nccl_uploader.cc: when the uploader gives up, and how long it waits.
use native.Mathlib.Nat.{mul-le-mul_right}
use gpuviz.Base.{
  ℕ, suc, Bool, not, ◌&&◌, if◌then◌else◌, ap, ◌+◌, ◌*◌, ◌≤◌, ◌<◌, ◌≡◌, refl, true, false, some,
  List, [], ◌∷◌, All, leb, ◌⊎◌, inl, inr, Bool-cases, arith,
}
use gpuviz.Base.Faults.{StatusOr-cases}
use gpuviz.Double.{DoubleOps}
use gpuviz.Uploader.{
  Uploader, Answers, is_ok, before, give_up_retry, upload_message, create_client_and_upload_message,
  upload, upload_all,
}
use gpuviz.Uploader.Valid.{
  max_sends, max_creates, IsValid, alive, dead, upload_message_lem, upload-cases, leb-false,
}

suc_mul : (s m : ℕ) → suc s * m ≡ s * m + m
suc_mul s m = grind arith

due_step : (early : Bool) (n : ℕ) → (if early then n else suc n) ≤ suc n
due_step true n = omega arith
due_step false n = omega arith

early_step : (early : Bool) (n : ℕ) → early ≡ true → (if early then n else suc n) ≡ n
early_step true n h = refl
early_step false n h = absurd cc

module _ {D : Type 0} where
  -- The call comes before the time of the next upload, and heeds it.
  abbrev pub is_early : Bool → Answers D → Uploader D → Bool
  is_early ignore a u = not ignore && before a.start_time u.next_execute_time

  -- The attempts so far: a failed message counts as many as the client may fail to be created.
  abbrev pub spent : Uploader D → ℕ
  spent u = u.attempts_send_message * max_creates u + u.attempts_create_client

  spent-lt :
      (u : Uploader D)
      → u.attempts_send_message < max_sends u
      → u.attempts_create_client < max_creates u
      → spent u < max_sends u * max_creates u
  spent-lt u h k =
      omega
        (arith, suc_mul u.attempts_send_message (max_creates u), mul-le-mul_right (max_creates u) h)

  -- One attempt more, or none left.
  record Spends (u u' : Uploader D) : Type 0 where
    valid : IsValid u'
    sends_kept : max_sends u' ≡ max_sends u
    creates_kept : max_creates u' ≡ max_creates u
    more :
        (u'.is_dead ≡ true)
        ⊎ (spent u < u'.attempts_send_message * max_creates u + u'.attempts_create_client)

module _ {D : Type 0} ⦃o : DoubleOps D⦄ (milliseconds : D → ℕ) where
  failed_message :
      (a : Answers D) (u : Uploader D)
      → is_ok a.send_status ≡ false
      → u.is_dead ≡ false
      → u.attempts_send_message < max_sends u
      → u.attempts_create_client < max_creates u
      → let u' = (upload_message milliseconds a u).1 in
        IsValid u'
        × (u'.attempts_send_message ≡ suc u.attempts_send_message)
        × (u'.attempts_create_client ≡ u.attempts_create_client)
        × (max_sends u' ≡ max_sends u)
        × (max_creates u' ≡ max_creates u)
  failed_message a u f h k l =
      let m = upload_message_lem milliseconds a u h k l in
      (m.0, elim m.2 [ inl (e, _) ↦ absurd cc | inr (_, e) ↦ e ], m.3, m.4, m.5)

  message-Spends :
      (a : Answers D) (u : Uploader D)
      → is_ok a.send_status ≡ false
      → u.is_dead ≡ false
      → u.attempts_send_message < max_sends u
      → u.attempts_create_client < max_creates u
      → Spends u (upload_message milliseconds a u).1
  message-Spends a u f h k l =
      let m = failed_message a u f h k l in
      record {
        valid = m.0;
        sends_kept = m.3;
        creates_kept = m.4;
        more = inr (rw (m.1, m.2) (omega (arith, suc_mul u.attempts_send_message (max_creates u))));
      }

  create-Spends :
      (a : Answers D) (u : Uploader D)
      → is_ok a.send_status ≡ false
      → u.is_dead ≡ false
      → u.attempts_send_message < max_sends u
      → u.attempts_create_client < max_creates u
      → Spends u (create_client_and_upload_message milliseconds a u).1
  unfolding create_client_and_upload_message give_up_retry
  create-Spends a u f h k l = elim (StatusOr-cases a.created) [
    | inl (c, e) ↦
        let u1 = record u {
          first_client_creation_done = true;
          client = some c;
          min_wait = c.min_wait;
          attempts_create_client = 0;
        } in
        let m = failed_message a u1 f h k (omega arith) in
        rw e (record {
          valid = m.0;
          sends_kept = m.3;
          creates_kept = m.4;
          more =
              inr (rw (m.1, m.2) (omega (arith, suc_mul u.attempts_send_message (max_creates u))));
        })
    | inr (e', e) ↦ elim (Bool-cases (leb (max_creates u) (suc u.attempts_create_client))) [
      | inl g ↦
          rw (e, g)
            (record {
              valid = dead refl refl refl;
              sends_kept = refl;
              creates_kept = refl;
              more = inl refl;
            })
      | inr g ↦
          rw (e, g)
            (record {
              valid = alive h k (leb-false (max_creates u) (suc u.attempts_create_client) g);
              sends_kept = refl;
              creates_kept = refl;
              more = inr (omega arith);
            })
    ]
  ]

  -- A call that comes before the time of the next upload changes nothing; any other spends an attempt.
  upload-Spends :
      (ignore : Bool) (a : Answers D) (u : Uploader D)
      → is_ok a.send_status ≡ false
      → u.is_dead ≡ false
      → IsValid u
      → ((is_early ignore a u ≡ true) × ((upload milliseconds ignore a u).1 ≡ u))
        ⊎ Spends u (upload milliseconds ignore a u).1
  upload-Spends ignore a u f h (dead g _ _) = absurd cc
  upload-Spends ignore a u f h (alive _ k l) = elim (upload-cases milliseconds ignore a u) [
    | inl (g, _) ↦ absurd cc
    | inr (inl (_, g, r)) ↦ inl (g, ap (λ x. x.1) r)
    | inr (inr (inl (_, _, r))) ↦ inr (rw r (message-Spends a u f h k l))
    | inr (inr (inr (_, r))) ↦ inr (rw r (create-Spends a u f h k l))
  ]

  dead_stays :
      (calls : List (Bool × Answers D)) (u : Uploader D)
      → u.is_dead ≡ true
      → (upload_all milliseconds calls u).is_dead ≡ true
  unfolding upload_all
  dead_stays [] u h = h
  dead_stays ((ignore, a) ∷ calls) u h = elim (upload-cases milliseconds ignore a u) [
    | inl (_, r) ↦ dead_stays calls (upload milliseconds ignore a u).1 (rw r h)
    | inr (inl (g, _, _)) ↦ absurd cc
    | inr (inr (inl (g, _, _))) ↦ absurd cc
    | inr (inr (inr (g, _))) ↦ absurd cc
  ]

  -- The calls of a run that do not come before the time of the next upload.
  abbrev pub due_calls : List (Bool × Answers D) → Uploader D → ℕ
  due_calls [] u = 0
  due_calls ((ignore, a) ∷ calls) u =
      let rest = due_calls calls (upload milliseconds ignore a u).1 in
      if is_early ignore a u then rest else suc rest

  -- As long as every message fails, whatever the random numbers and the creation of clients do, and
  -- whether the calls heed the time of the next upload or not: once the calls that do not come before
  -- that time are as many as the product of the two limits on attempts, less those already spent, the
  -- uploader is dead.
  pub upload_all-gives_up :
      (calls : List (Bool × Answers D)) (u : Uploader D)
      → IsValid u
      → All {A = Bool × Answers D} (λ c. is_ok c.1.send_status ≡ false) calls
      → max_sends u * max_creates u ≤ spent u + due_calls calls u
      → (upload_all milliseconds calls u).is_dead ≡ true
  unfolding upload_all
  upload_all-gives_up calls u (dead h c n) f l = dead_stays calls u h
  upload_all-gives_up [] u (alive h k l) f m = absurd (omega (arith, spent-lt u k l))
  upload_all-gives_up ((ignore, a) ∷ calls) u (alive h k l) (f, fs) m =
      let u' = (upload milliseconds ignore a u).1 in
      let rest = due_calls calls u' in
      let bound : max_sends u * max_creates u
          ≤ spent u + (if is_early ignore a u then rest else suc rest) =
        m in
      elim (upload-Spends ignore a u f h (alive h k l)) [
        | inl (e, r) ↦ upload_all-gives_up calls u' (rw r (alive h k l)) fs (
            rw r (
              omega
                (arith, bound, early_step (is_early ignore a u) rest e, ap (due_calls calls) r)))
        | inr s ↦ elim s.more [
          | inl d ↦ dead_stays calls u' d
          | inr g ↦ upload_all-gives_up calls u' s.valid fs (
              rw (s.sends_kept, s.creates_kept)
                (omega (arith, bound, due_step (is_early ignore a u) rest)))
        ]
      ]
