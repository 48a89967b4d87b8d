-- ===== src/Uploader/Tests.antt =====
-- Runs of src/nccl_uploader.cc over whole numbers: two attempts for a message and one for a client.
use gpuviz.Base.{Bool, List, ℕ, ◌≡◌, ◌⊎◌, refl, true, false, none, [], ◌∷◌, arith}
use gpuviz.Base.Faults.{internal, value}
use gpuviz.Double.{whole_ops}
use gpuviz.Uploader.{at, BackOffParameters, Uploader, Answers, upload, upload_all}
use gpuviz.Uploader.Valid.{max_sends, max_creates, IsValid, alive, upload-IsValid}
use gpuviz.Uploader.Retry.{upload_all-gives_up}

abbrev backoff : ℕ → BackOffParameters ℕ
backoff attempts = record { base_delay = 10; base = 2; cap = 100; max_attempts = attempts }

abbrev uploader : Uploader ℕ
uploader = record {
  client = none;
  first_client_creation_done = false;
  attempts_create_client = 0;
  attempts_send_message = 0;
  is_dead = false;
  next_execute_time = at 0;
  min_wait = 0;
  send_messages_backoff = backoff 2;
  create_client_backoff = backoff 1;
}

abbrev refused : Answers ℕ
refused = record {
  start_time = 5;
  current_time = 6;
  client_is_dead = false;
  created = value (record { min_wait = 3; max_message_byte_size = 100 });
  send_status = internal;
  client_is_dead_after_send = false;
  jitter = 0;
}

uploader-IsValid : IsValid uploader
uploader-IsValid = alive refl (omega arith) (omega arith)

upload-IsValid_example :
    let u' = (upload ⦃o = whole_ops⦄ (λ d. d) false refused uploader).1 in
    IsValid u'
    × (max_sends u' ≡ 2)
    × (max_creates u' ≡ 1)
    × ((false ≡ false)
        ⊎ ((u' ≡ uploader)
            × ((upload ⦃o = whole_ops⦄ (λ d. d) false refused uploader).0 ≡ internal)))
upload-IsValid_example =
    upload-IsValid ⦃o = whole_ops⦄ (λ d. d) false refused uploader uploader-IsValid

-- The second call comes too early; the others do not, one of them since it does not heed the time.
abbrev calls : List (Bool × Answers ℕ)
calls = (false, refused) ∷ (false, refused) ∷ (true, refused) ∷ []

upload_all-gives_up_example : (upload_all ⦃o = whole_ops⦄ (λ d. d) calls uploader).is_dead ≡ true
unfolding upload
upload_all-gives_up_example =
    upload_all-gives_up ⦃o = whole_ops⦄ (λ d. d) calls uploader uploader-IsValid
      (refl, (refl, (refl, tt))) (omega arith)
