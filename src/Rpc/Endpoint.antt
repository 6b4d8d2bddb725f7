-- ===== src/Rpc/Endpoint.antt =====
-- src/app/rpc/RpcServer.cpp: `bindAndListen` and `registerDiscovery`, with the program
-- src/rpc_server.cpp that calls them. The Nacos client is a parameter: what its calls return, none
-- or false for an exception.
pub mod Discovery
mod Tests
use simple_redis_client.Prelude.{
  ℕ, zero, suc, ◌+◌, ◌-◌, ◌^◌, Bool, true, false, not, ◌&&◌, ◌||◌, Option, none, some, List, Bytes,
  [], ◌∷◌, if◌then◌else◌,
}
use simple_redis_client.Prelude.Int.{ℤ, pos, negsuc}
use simple_redis_client.Socket.{System, is_success, bind, listen, default_backlog}

-- `server_ip`, `server_port`, `use_nacos` and `namingService_`, a number when there is one.
pub record Endpoint : Type 0 where
  pub server_ip : Bytes
  pub server_port : ℤ
  pub use_nacos : Bool
  pub naming_service : Option ℕ

abbrev pub new_endpoint : Endpoint
new_endpoint = record {
  server_ip = [];
  server_port = pos 0;
  use_nacos = true;
  naming_service = none;
}

-- A `short` as the `unsigned short` of `bind`.
abbrev pub as_unsigned : ℤ → ℕ
as_unsigned (pos n) = n
as_unsigned (negsuc n) = 2 ^ 16 - 1 - n

-- A call of `bindAndListen`, with what the system and the Nacos factory answer.
pub record Attempt : Type 0 where
  pub sys : System
  pub ip : Bytes
  pub port : ℤ
  pub created : Option ℕ

abbrev pub connect_nacos : Endpoint → Option ℕ → Endpoint
connect_nacos e none = record e { use_nacos = false }
connect_nacos e (some service) = record e { naming_service = some service }

module _ (socket : Option ℕ) where
  unfoldable pub bind_and_listen : Endpoint → Attempt → Bool × Endpoint
  bind_and_listen e a =
      if is_success (bind a.sys socket a.ip (as_unsigned a.port)).0
        && is_success (listen a.sys socket default_backlog).0
      then (true, connect_nacos (record e { server_ip = a.ip; server_port = a.port }) a.created)
      else (false, e)

  -- Several calls: the state after them, and whether one has returned true.
  unfoldable pub bind_all : Endpoint → List Attempt → Bool × Endpoint
  unfolding bind_and_listen
  bind_all e [] = (false, e)
  bind_all e (a ∷ rest) =
      let (bound, e') = bind_and_listen e a in
      let (later, e'') = bind_all e' rest in (bound || later, e'')

pub data Registration : Type 0 where
  registered : ℕ → Bytes → Bytes → ℤ → Registration
  refused : Registration
  not_used : Registration
  -- A call through the null pointer.
  null_service : Registration

-- `registerInstance` of a naming service.
abbrev pub RegisterInstance : Type 0
RegisterInstance = ℕ → Bytes → Bytes → ℤ → Bool

abbrev pub register_with : RegisterInstance → Endpoint → Bytes → Option ℕ → Registration
register_with register_instance e name none = null_service
register_with register_instance e name (some service) =
    if register_instance service name e.server_ip e.server_port
    then registered service name e.server_ip e.server_port
    else refused

unfoldable pub register_discovery : RegisterInstance → Endpoint → Bytes → Registration
register_discovery register_instance e name =
    if e.use_nacos then register_with register_instance e name e.naming_service else not_used

-- `main` of src/rpc_server.cpp: when `bindAndListen` fails it prints this, and registers the service.
unfoldable pub server_main : Option ℕ → Attempt → RegisterInstance → Bytes → Registration
unfolding bind_and_listen register_discovery
server_main socket a register_instance name =
    register_discovery register_instance (bind_and_listen socket new_endpoint a).1 name
