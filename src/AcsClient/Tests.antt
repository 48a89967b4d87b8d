-- ===== src/AcsClient/Tests.antt =====
-- Runs of src/client.cc: an agent with quotas of 10 messages and 4000 bytes, whose state is what it has sent.
use gpuviz.Base.{ℕ, ◌*◌, ◌≤◌, ◌≡◌, refl, false, some, none, List, [], ◌∷◌, arith}
use gpuviz.Base.Faults.{ok, value}
use gpuviz.AcsClient.{
  AcsAgent, AcsConfiguration, AcsClient, configuration, no_body, receive, get_messages_per_minute,
  get_max_message_byte_size,
}
use gpuviz.AcsClient.Quota.{
  KeepsTo, get_max_message_byte_size-KeepsTo, receive_all, zero_rate_faults,
}

abbrev agent : AcsAgent (List ℕ) ℕ
agent = record {
  generate_agent_connection_id = λ regional. ok;
  create_with_stub = λ end_point regional timeout. value [];
  create_default = λ regional. value [];
  is_dead = λ s. false;
  send_message = λ version m s. (ok, m ∷ s);
  get_message_per_minute_quota = λ s. value 10;
  get_bytes_per_minute_quota = λ s. value 4000;
}

abbrev client : AcsClient (List ℕ)
client = record { client = some []; config = record { version = none; messages_per_minute = 6 } }

get_max_message_byte_size-KeepsTo_example :
    (n size : ℕ) × (get_messages_per_minute agent client ≡ some n)
    × (get_max_message_byte_size agent client ≡ some size)
    × (size * n ≤ 4000)
    × (n ≤ 6)
    × KeepsTo (value 10) n
get_max_message_byte_size-KeepsTo_example =
    get_max_message_byte_size-KeepsTo agent client [] 4000 refl refl (λ h. omega arith)

abbrev no_rate : AcsConfiguration
no_rate = record { version = "2"; agent_config = some 0 }

zero_rate_faults_example :
    get_max_message_byte_size agent
      (receive_all agent (no_body ∷ []) (receive agent (configuration no_rate) client))
    ≡ none
zero_rate_faults_example =
    zero_rate_faults agent no_rate (no_body ∷ []) client [] 4000 refl refl refl (tt, tt)
