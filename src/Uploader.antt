-- ===== src/Uploader.antt =====
-- src/nccl_uploader.h and .cc: `NcclUploader`, which sends messages through a client, creates the
-- client again when it has died, waits between its attempts, and gives up after too many. The clock,
-- the client and the random numbers are the other side of interfaces: what they answer in a call of
-- `Upload` is an argument. Times and durations are numbers of the clock's ticks. The log, and the
-- delay before the first client is created, are not modelled, nor is an overflow of the `int64_t`
-- attempts, which stay below their limits.
pub mod Valid
pub mod Retry
mod Tests
use Prim.Native.Nat.{max, ◌-◌}
use gpuviz.Base.{
  ℕ, suc, ◌+◌, Bool, true, false, not, ◌&&◌, Option, none, some, List, [], ◌∷◌, leb, ltb,
  if◌then◌else◌,
}
use gpuviz.Base.Faults.{Status, ok, internal, failed_precondition, StatusOr, value, status}
use gpuviz.Double.{DoubleOps}

-- `absl::Time`, with `absl::InfiniteFuture()`; durations likewise.
pub data Time : Type 0 where
  at : ℕ → Time
  infinite : Time

-- `BackOffParameters`.
pub record BackOffParameters (D : Type 0) : Type 0 where
  pub base_delay : D
  pub base : D
  pub cap : D
  pub max_attempts : ℕ

-- What a client answers: `GetMinWait` and `GetMaxMessageByteSize`.
pub record Client : Type 0 where
  pub min_wait : ℕ
  pub max_message_byte_size : ℕ

pub record Uploader (D : Type 0) : Type 0 where
  pub client : Option Client
  pub first_client_creation_done : Bool
  pub attempts_create_client : ℕ
  pub attempts_send_message : ℕ
  pub is_dead : Bool
  pub next_execute_time : Time
  pub min_wait : ℕ
  pub send_messages_backoff : BackOffParameters D
  pub create_client_backoff : BackOffParameters D

-- What happens outside during one call of `Upload`: the clock at its start and after the last call
-- of the client, whether the client is dead at the start, what `client_creator_` returns, what
-- `SendMessage` returns, whether the client is dead after it, and the random number drawn.
pub record Answers (D : Type 0) : Type 0 where
  pub start_time : ℕ
  pub current_time : ℕ
  pub client_is_dead : Bool
  pub created : StatusOr Client
  pub send_status : Status
  pub client_is_dead_after_send : Bool
  pub jitter : D

abbrev pub is_ok : Status → Bool
is_ok ok = true
is_ok _ = false

-- `t < next`.
abbrev pub before : ℕ → Time → Bool
before t (at n) = ltb t n
before t infinite = true

-- `current_time + d`, and `std::max(min_wait, d)`.
abbrev pub later : ℕ → Time → Time
later t (at d) = at (t + d)
later t infinite = infinite

abbrev pub at_least : ℕ → Time → Time
at_least m (at d) = at (max m d)
at_least m infinite = infinite

module _ {D : Type 0} where
  -- `client_ != nullptr && !client_->IsDead()`.
  abbrev pub client_is_alive : Answers D → Uploader D → Bool
  client_is_alive a u = elim u.client [ none ↦ false | some c ↦ not a.client_is_dead ]

module _ {D : Type 0} ⦃o : DoubleOps D⦄ (milliseconds : D → ℕ) where
  -- `CalculateBackoff`, where no other calculator is given; `jitter` lies between 0 and half the
  -- exponential delay, and `milliseconds` is `absl::Milliseconds`.
  pub calculate_backoff : BackOffParameters D → ℕ → D → Time
  calculate_backoff p num_retries jitter =
      let exponential =
        o.mul p.base_delay (o.pow p.base (o.sub (o.of_nat num_retries) (o.of_nat 1))) in
      let exponential_delay = if o.lt exponential p.cap then exponential else p.cap in
      if leb p.max_attempts num_retries
      then infinite
      else at (milliseconds (o.add (o.div exponential_delay (o.of_nat 2)) jitter))

  pub give_up_retry : Uploader D → Uploader D
  give_up_retry u = record u { next_execute_time = infinite; client = none; is_dead = true }

  pub upload_message : Answers D → Uploader D → Status × Uploader D
  unfolding calculate_backoff give_up_retry
  upload_message a u =
      if is_ok a.send_status
      then (
        a.send_status,
        record u {
          attempts_send_message = 0;
          next_execute_time = at (a.current_time + u.min_wait);
        },
      )
      else (let u' = record u {
        client = if a.client_is_dead_after_send then none else u.client;
        attempts_send_message = suc u.attempts_send_message;
      } in
          (
            a.send_status,
            if leb u.send_messages_backoff.max_attempts (suc u.attempts_send_message)
                then give_up_retry u'
                else record u' {
                  next_execute_time = later a.current_time (
                      at_least u.min_wait (
                        calculate_backoff u.send_messages_backoff (suc u.attempts_send_message)
                          a.jitter));
                },
          ))

  pub create_client_and_upload_message : Answers D → Uploader D → Status × Uploader D
  unfolding upload_message give_up_retry calculate_backoff
  create_client_and_upload_message a u = elim a.created [
    | value client ↦ upload_message a (record u {
      first_client_creation_done = true;
      client = some client;
      min_wait = client.min_wait;
      attempts_create_client = 0;
    })
    | status e ↦
        let u' = record u {
          first_client_creation_done = true;
          attempts_create_client = suc u.attempts_create_client;
        } in
        (
          e,
          if leb u.create_client_backoff.max_attempts (suc u.attempts_create_client)
              then give_up_retry u'
              else record u' {
                next_execute_time = later a.current_time (
                    calculate_backoff u.create_client_backoff (suc u.attempts_create_client)
                      a.jitter);
              },
        )
  ]

  pub upload : Bool → Answers D → Uploader D → Status × Uploader D
  unfolding upload_message create_client_and_upload_message
  upload ignore_next_execute_time a u =
      if u.is_dead
      then (internal, u)
      else if not ignore_next_execute_time && before a.start_time u.next_execute_time
      then (failed_precondition, u)
      else if client_is_alive a u
      then upload_message a u
      else create_client_and_upload_message a u

  -- Calls, one after the other, each with its `ignore_next_execute_time`.
  pub upload_all : List (Bool × Answers D) → Uploader D → Uploader D
  unfolding upload
  upload_all [] u = u
  upload_all ((ignore, a) ∷ rest) u = upload_all rest (upload ignore a u).1

module _ {D : Type 0} where
  pub next_upload_time : Uploader D → Time
  next_upload_time u = u.next_execute_time

  pub get_max_message_byte_size : Bool → Uploader D → ℕ
  get_max_message_byte_size client_is_dead u = elim u.client [
    | none ↦ 1048576
    | some c ↦ if client_is_dead then 1048576 else c.max_message_byte_size
  ]
