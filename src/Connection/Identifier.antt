-- ===== src/Connection/Identifier.antt =====
-- src/nccl_stats_aggregator.cc: the two constructors of `ConnectionIdentifier`; of src/utils.cc
-- `ConvertSockaddrStorageToString` and `getEndpointString`; the identifiers of src/nccl_stats.h.
-- `inet_ntop` and `std::to_string` are parameters. A C string is an optional text, `none` where null.
-- The union of an identifier is a data type: `conn_type` says which member is set, and the code reads
-- no other.
use Prim.Native.String.{String, ◌++◌}
use gpuviz.Base.{ℕ, Bool, false, Option, none, some}
use gpuviz.Stats.{ConnectionType, PluginType}

-- `sockaddr_storage` by its family, with the port in host order.
pub data SockaddrStorage : Type 0 where
  inet : ℕ → ℕ → SockaddrStorage
  inet6 : ℕ → ℕ → SockaddrStorage
  other_family : SockaddrStorage

-- The library calls that print.
pub record Printers : Type 0 where
  pub inet_ntop : ℕ → String
  pub inet_ntop6 : ℕ → String
  pub to_string : ℕ → String

-- `ncclStatsProfilerPluginConnection`.
pub record ProfilerConnection : Type 0 where
  pub local_endpoint : SockaddrStorage
  pub local_rank : ℕ
  pub local_comm_hash : ℕ
  pub remote_or_root_rank : ℕ
  pub collective_type : Option String
  pub collective_algorithm : Option String
  pub description : Option String

-- `ncclStatsConnection` with the `conn_type` that selects its member.
pub data StatsConnection : Type 0 where
  nvl_conn pci_conn : StatsConnection
  tcp_conn : SockaddrStorage → SockaddrStorage → StatsConnection
  rdma_conn : SockaddrStorage → ℕ → SockaddrStorage → ℕ → StatsConnection
  profiler_conn : ProfilerConnection → StatsConnection

pub conn_type : StatsConnection → ConnectionType
conn_type nvl_conn = ConnectionType.nvl
conn_type pci_conn = ConnectionType.pci
conn_type (tcp_conn _ _) = ConnectionType.tcp
conn_type (rdma_conn _ _ _ _) = ConnectionType.rdma
conn_type (profiler_conn _) = ConnectionType.profiler_plugin

-- `ncclStatsConnectionIdentifier`.
pub record StatsIdentifier : Type 0 where
  pub nccl_plugin_type : PluginType
  pub nccl_plugin_name : Option String
  pub gpu_pci_addr : Option String
  pub connection : StatsConnection

-- `ncclStatsConnectionIdentifier_v4`. The last two stand in the profiler member of its union.
pub record StatsIdentifierV4 : Type 0 where
  pub nccl_plugin_type : PluginType
  pub nccl_plugin_name : Option String
  pub gpu_pci_addr : Option String
  pub gpu_uuid : Option String
  pub connection : StatsConnection
  pub is_nvl_telemetry : Bool
  pub channel_id : ℕ

-- The private `ConnectionIdentifier`, a deep copy.
pub record ConnectionIdentifier : Type 0 where
  pub nccl_plugin_type : PluginType
  pub nccl_plugin_name : String
  pub gpu_pci_addr : String
  pub gpu_uuid : String
  pub connection : StatsConnection
  pub is_nvl_telemetry : Bool
  pub channel_id : ℕ
  pub local_nic_ip : String
  pub remote_endpoint : String
  pub local_endpoint : String
  pub collective_type : String
  pub collective_algorithm : String
  pub description : String

-- `p ? p : ""`.
abbrev pub or_empty : Option String → String
or_empty none = ""
or_empty (some s) = s

infixr 65 ◌<>◌
abbrev ◌<>◌ : String → String → String
s <> t = ◌++◌ s t

module _ (print : Printers) where
  pub convert_sockaddr_storage_to_string : SockaddrStorage → String × String
  convert_sockaddr_storage_to_string (inet addr port) = (print.inet_ntop addr, print.to_string port)
  convert_sockaddr_storage_to_string (inet6 addr port) =
      (print.inet_ntop6 addr, print.to_string port)
  convert_sockaddr_storage_to_string other_family = ("", "")

  pub get_endpoint_string : String × String → String
  get_endpoint_string (ip, port) = ip <> ":" <> port

  -- The switch of the first constructor, over the members that are set before it.
  pub fill_endpoints : StatsConnection → ConnectionIdentifier → ConnectionIdentifier
  unfolding convert_sockaddr_storage_to_string get_endpoint_string
  fill_endpoints nvl_conn c = c
  fill_endpoints pci_conn c = c
  fill_endpoints (tcp_conn local remote) c =
      let ip_port = convert_sockaddr_storage_to_string local in
      record c {
        local_nic_ip = ip_port.0;
        local_endpoint = get_endpoint_string ip_port;
        remote_endpoint = get_endpoint_string (convert_sockaddr_storage_to_string remote);
      }
  fill_endpoints (rdma_conn local local_qpn remote remote_qpn) c =
      let ip_port = convert_sockaddr_storage_to_string local in
      record c {
        local_nic_ip = ip_port.0;
        local_endpoint = get_endpoint_string ip_port;
        remote_endpoint = get_endpoint_string (convert_sockaddr_storage_to_string remote);
      }
  fill_endpoints (profiler_conn p) c =
      let ip_port = convert_sockaddr_storage_to_string p.local_endpoint in
      record c {
        local_nic_ip = ip_port.0;
        local_endpoint = ip_port.0 <> "|" <> print.to_string p.local_rank;
        remote_endpoint = print.to_string p.remote_or_root_rank;
        collective_type = or_empty p.collective_type;
        collective_algorithm = or_empty p.collective_algorithm;
        description = or_empty p.description;
      }

  pub of_identifier : StatsIdentifier → ConnectionIdentifier
  unfolding fill_endpoints
  of_identifier i = fill_endpoints i.connection (record {
    nccl_plugin_type = i.nccl_plugin_type;
    nccl_plugin_name = or_empty i.nccl_plugin_name;
    gpu_pci_addr = or_empty i.gpu_pci_addr;
    gpu_uuid = "";
    connection = i.connection;
    is_nvl_telemetry = false;
    channel_id = 0;
    local_nic_ip = "";
    remote_endpoint = "";
    local_endpoint = "";
    collective_type = "";
    collective_algorithm = "";
    description = "";
  })

  -- The second constructor handles the profiler member first; the others are copied whole, and the
  -- switch then does what the first constructor does.
  pub of_identifier_v4 : StatsIdentifierV4 → ConnectionIdentifier
  unfolding fill_endpoints
  of_identifier_v4 i =
      let copied : ConnectionIdentifier = record {
        nccl_plugin_type = i.nccl_plugin_type;
        nccl_plugin_name = or_empty i.nccl_plugin_name;
        gpu_pci_addr = or_empty i.gpu_pci_addr;
        gpu_uuid = or_empty i.gpu_uuid;
        connection = i.connection;
        is_nvl_telemetry = false;
        channel_id = 0;
        local_nic_ip = "";
        remote_endpoint = "";
        local_endpoint = "";
        collective_type = "";
        collective_algorithm = "";
        description = "";
      } in
      elim i.connection [
        | profiler_conn p ↦
            fill_endpoints (profiler_conn p)
              (record copied { is_nvl_telemetry = i.is_nvl_telemetry; channel_id = i.channel_id })
        | other ↦ fill_endpoints other copied
      ]

  -- The address that a member of the union tells of the local side.
  pub local_address : StatsConnection → Option SockaddrStorage
  local_address nvl_conn = none
  local_address pci_conn = none
  local_address (tcp_conn local remote) = some local
  local_address (rdma_conn local local_qpn remote remote_qpn) = some local
  local_address (profiler_conn p) = some p.local_endpoint
