-- ===== src/AcsClient/Quota.antt =====
-- src/client.cc: the sizes and the rate that the client tells the uploader.
use native.Mathlib.Nat.{div-mul-le_self}
use gpuviz.Base.{
  ℕ, ◌*◌, ◌/◌, ◌≤◌, ◌≡◌, ◌≢◌, ◌∙◌, refl, ap, ◌==◌, ==→eq, none, some, List, [], ◌∷◌, All,
  Bool-cases, ◌⊎◌, inl, inr, arith,
}
use gpuviz.Base.Faults.{◌>>=◌, StatusOr, value, status}
use gpuviz.AcsClient.{
  AcsAgent, AcsConfiguration, Response, no_body, other_body, unreadable, configuration, AcsClient,
  AcsConfig, update_config, read_callback, limited_by, divide, byte_size_of, receive,
  get_messages_per_minute, get_max_message_byte_size,
}

-- `n` keeps to a quota that is there and is not zero.
abbrev pub KeepsTo : StatusOr ℕ → ℕ → Type 0
KeepsTo (status e) n = Unit {0}
KeepsTo (value quota) n = (quota ≡ 0) ⊎ (n ≤ quota)

limited_by-KeepsTo :
    (rate : ℕ) (quota : StatusOr ℕ)
    → rate ≢ 0
    → KeepsTo quota (limited_by rate quota)
      × (limited_by rate quota ≤ rate)
      × (limited_by rate quota ≢ 0)
unfolding limited_by
limited_by-KeepsTo rate (status e) h = (tt, omega arith, h)
limited_by-KeepsTo rate (value quota) h = elim (Bool-cases (quota == 0)) [
  | inl e ↦ rw e (inl (==→eq quota 0 e), omega arith, h)
  | inr e ↦ rw e (inr (omega arith), omega arith, ground arith)
]

divide-some : (a b : ℕ) → b ≢ 0 → divide a b ≡ some (a / b)
unfolding divide
divide-some a b h = elim (Bool-cases (b == 0)) [
  | inl e ↦ absurd (h (==→eq b 0 e))
  | inr e ↦ rw e refl
]

limited_by-zero : (quota : StatusOr ℕ) → limited_by 0 quota ≡ 0
unfolding limited_by
limited_by-zero (status e) = refl
limited_by-zero (value quota) = elim (Bool-cases (quota == 0)) [
  | inl e ↦ rw e refl
  | inr e ↦ rw e (omega arith)
]

-- What a response does to the rate: it sets none, or the one that it bears.
abbrev pub SetsNoRate : Response → Type 0
SetsNoRate (configuration m) = m.agent_config ≡ none
SetsNoRate _ = Unit {0}

module _ {S M : Type 0} (agent : AcsAgent S M) where
  rate_lem :
      (c : AcsClient S) (s : S)
      → c.client ≡ some s
      → get_messages_per_minute agent c
        ≡ some (limited_by c.config.messages_per_minute (agent.get_message_per_minute_quota s))
  unfolding get_messages_per_minute
  rate_lem c s h =
      ap
        (λ p. p >>= λ x.
          some (limited_by c.config.messages_per_minute (agent.get_message_per_minute_quota x)))
        h

  size_lem :
      (c : AcsClient S) (s : S)
      → c.client ≡ some s
      → get_max_message_byte_size agent c
        ≡ byte_size_of
            (limited_by c.config.messages_per_minute (agent.get_message_per_minute_quota s))
            (agent.get_bytes_per_minute_quota s)
  unfolding get_max_message_byte_size
  size_lem c s h =
      ap
        (λ p. p >>= λ x. get_messages_per_minute agent c >>= λ n.
          byte_size_of n (agent.get_bytes_per_minute_quota x))
        h
      ∙ ap (λ p. p >>= λ n. byte_size_of n (agent.get_bytes_per_minute_quota s)) (rate_lem c s h)

  -- With a client, a quota of bytes and a configured rate that is not zero, both questions are answered;
  -- as many messages as may be sent in a minute, each as large as it may be, take no more bytes than the
  -- quota; and their number is at most the configured one and, unless that is zero, the quota of
  -- messages.
  pub get_max_message_byte_size-KeepsTo :
      (c : AcsClient S) (s : S) (quota : ℕ)
      → c.client ≡ some s
      → agent.get_bytes_per_minute_quota s ≡ value quota
      → c.config.messages_per_minute ≢ 0
      → (n size : ℕ) × (get_messages_per_minute agent c ≡ some n)
        × (get_max_message_byte_size agent c ≡ some size)
        × (size * n ≤ quota)
        × (n ≤ c.config.messages_per_minute)
        × KeepsTo (agent.get_message_per_minute_quota s) n
  unfolding byte_size_of
  get_max_message_byte_size-KeepsTo c s quota h q r =
      let n = limited_by c.config.messages_per_minute (agent.get_message_per_minute_quota s) in
      let (k, le, ne) =
        limited_by-KeepsTo c.config.messages_per_minute (agent.get_message_per_minute_quota s) r in
      (
        n,
        quota / n,
        rate_lem c s h,
        size_lem c s h ∙ ap (byte_size_of n) q ∙ divide-some quota n ne,
        div-mul-le_self quota n,
        le,
        k,
      )

  abbrev pub receive_all : List Response → AcsClient S → AcsClient S
  receive_all [] c = c
  receive_all (r ∷ rs) c = receive_all rs (receive agent r c)

  no_rate_lem :
      (r : Response) (c : AcsConfig)
      → SetsNoRate r
      → (read_callback r c).messages_per_minute ≡ c.messages_per_minute
  unfolding read_callback update_config
  no_rate_lem no_body c h = refl
  no_rate_lem other_body c h = refl
  no_rate_lem unreadable c h = refl
  no_rate_lem (configuration m) c h = rw h refl

  zero_rate_lem :
      (rs : List Response) (c : AcsClient S) (s : S) (quota : ℕ)
      → c.client ≡ some s
      → agent.get_bytes_per_minute_quota s ≡ value quota
      → c.config.messages_per_minute ≡ 0
      → All SetsNoRate rs
      → get_max_message_byte_size agent (receive_all rs c) ≡ none
  unfolding receive byte_size_of divide
  zero_rate_lem [] c s quota h q z n =
      size_lem c s h
      ∙ ap
          (λ r.
            byte_size_of (limited_by r (agent.get_message_per_minute_quota s))
              (agent.get_bytes_per_minute_quota s))
          z
      ∙ ap (λ n. byte_size_of n (agent.get_bytes_per_minute_quota s))
          (limited_by-zero (agent.get_message_per_minute_quota s))
      ∙ ap (byte_size_of 0) q
  zero_rate_lem (r ∷ rs) c s quota h q z (n, ns) =
      zero_rate_lem rs (receive agent r c) s quota h q (no_rate_lem r c.config n ∙ z) ns

  -- With a client and an available quota of bytes, a configuration with an agent's configuration of
  -- no messages per minute, or without that number, which reads as zero, makes the next question for
  -- the size a division by zero, and so do all later ones until another such configuration comes.
  pub zero_rate_faults :
      (m : AcsConfiguration) (rs : List Response) (c : AcsClient S) (s : S) (quota : ℕ)
      → c.client ≡ some s
      → agent.get_bytes_per_minute_quota s ≡ value quota
      → m.agent_config ≡ some 0
      → All SetsNoRate rs
      → get_max_message_byte_size agent (receive_all rs (receive agent (configuration m) c)) ≡ none
  unfolding receive read_callback update_config
  zero_rate_faults m rs c s quota h q z n =
      zero_rate_lem rs (receive agent (configuration m) c) s quota h q (rw z refl) n
