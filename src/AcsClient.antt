-- ===== src/AcsClient.antt =====
-- src/client.cc and .h: `AcsAgentClientWrapper`, the uploader's client, with the configuration that the
-- server may send at any time. The agent's client of the library below is an interface; `none` is a
-- fault: a null pointer is followed, or an integer is divided by zero.
pub mod Quota
mod Tests
use Prim.Native.String.{String, len}
use Prim.Native.Nat.{min}
use gpuviz.Base.{ℕ, ◌/◌, Bool, true, false, ◌==◌, Option, none, some, if◌then◌else◌}
use gpuviz.Base.Faults.{◌>>=◌, Status, ok, StatusOr, value, status}

-- `agent_communication::AcsAgentClient` on an object in the state `S`, for messages `M`. A label is the
-- version of the configuration that the message was made under.
pub record AcsAgent (S M : Type 0) : Type 0 where
  pub generate_agent_connection_id : Bool → Status
  pub create_with_stub : String → Bool → ℕ → StatusOr S
  pub create_default : Bool → StatusOr S
  pub is_dead : S → Bool
  pub send_message : Option String → M → S → Status × S
  pub get_message_per_minute_quota : S → StatusOr ℕ
  pub get_bytes_per_minute_quota : S → StatusOr ℕ

-- `AcsConfiguration` of src/proto/acs_configuration.proto: the version, and the messages per minute of
-- the agent's configuration, if there is one. A field that is not set reads as empty or as zero.
pub record AcsConfiguration : Type 0 where
  pub version : String
  pub agent_config : Option ℕ

-- What a response of the server holds, as the read callback tells it apart.
pub data Response : Type 0 where
  no_body other_body unreadable : Response
  configuration : AcsConfiguration → Response

-- `AcsConfig`.
pub record AcsConfig : Type 0 where
  pub version : Option String
  pub messages_per_minute : ℕ

pub new_config : AcsConfig
new_config = record { version = none; messages_per_minute = 6 }

-- `AcsConfig::Update`.
pub update_config : AcsConfiguration → AcsConfig → AcsConfig
update_config m c = record c {
  version = some m.version;
  messages_per_minute = elim m.agent_config [ none ↦ c.messages_per_minute | some n ↦ n ];
}

-- The read callback.
pub read_callback : Response → AcsConfig → AcsConfig
read_callback (configuration m) c = update_config m c
read_callback _ c = c

pub record AcsClient (S : Type 0) : Type 0 where
  pub client : Option S
  pub config : AcsConfig

abbrev pub default_max_message_byte_size : ℕ
default_max_message_byte_size = 262144

-- The smaller of the quota, if there is one, and the configured number.
pub limited_by : ℕ → StatusOr ℕ → ℕ
limited_by messages_per_minute (status e) = messages_per_minute
limited_by messages_per_minute (value quota) =
    if quota == 0 then messages_per_minute else min quota messages_per_minute

-- `a / b` on `uint64_t`.
pub divide : ℕ → ℕ → Option ℕ
divide a b = if b == 0 then none else some (a / b)

pub byte_size_of : ℕ → StatusOr ℕ → Option ℕ
byte_size_of messages_per_minute (status e) = some default_max_message_byte_size
byte_size_of messages_per_minute (value quota) = divide quota messages_per_minute

module _ {S M : Type 0} (agent : AcsAgent S M) where
  abbrev pub wrapped : StatusOr S → StatusOr (AcsClient S)
  wrapped (status e) = status e
  wrapped (value s) = value (record { client = some s; config = new_config })

  -- `Create`, with what the environment says.
  pub create : String → Bool → ℕ → StatusOr (AcsClient S)
  create end_point regional ack_timeout =
      if len end_point == 0
      then wrapped (agent.create_default regional)
      else elim (agent.generate_agent_connection_id regional) [
        | ok ↦ wrapped (agent.create_with_stub end_point regional ack_timeout)
        | e ↦ status e
      ]

  -- A response that the library has read for this client.
  pub receive : Response → AcsClient S → AcsClient S
  receive r c = record c { config = read_callback r c.config }

  pub send_message : M → AcsClient S → Option (Status × AcsClient S)
  send_message m c = do
    s ← c.client
    let (t, s') = agent.send_message c.config.version m s
    some (t, record c { client = some s' })

  pub is_dead : AcsClient S → Bool
  is_dead c = elim c.client [ none ↦ true | some s ↦ agent.is_dead s ]

  pub get_messages_per_minute : AcsClient S → Option ℕ
  get_messages_per_minute c = do
    s ← c.client
    some (limited_by c.config.messages_per_minute (agent.get_message_per_minute_quota s))

  -- `GetMinWait`; `absl::Minutes(1) / n` is a function of the library of durations.
  pub get_min_wait : {W : Type 0} → (ℕ → W) → AcsClient S → Option W
  get_min_wait minute_divided_by c = do n ← get_messages_per_minute c; some (minute_divided_by n)

  pub get_max_message_byte_size : AcsClient S → Option ℕ
  get_max_message_byte_size c = do
    s ← c.client
    n ← get_messages_per_minute c
    byte_size_of n (agent.get_bytes_per_minute_quota s)
