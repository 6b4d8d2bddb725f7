-- ===== src/Rpc/Endpoint/Tests.antt =====
-- The RPC server's registration after calls of `bindAndListen` that fail and succeed.
use simple_redis_client.Prelude.{leb, ◌≡◌, refl, true, not, none, some, [], ◌∷◌, length, codes}
use simple_redis_client.Prelude.Int.{ℤ, pos, negsuc}
use simple_redis_client.Socket.{System}
use simple_redis_client.Rpc.Endpoint.{
  Attempt, new_endpoint, bind_all, register_discovery, server_main, registered, null_service,
}
use simple_redis_client.Rpc.Endpoint.Discovery.{is_null, discovery_null}

-- Ports up to 1023 are taken.
abbrev small_system : System
small_system = record {
  inet_pton = λ ip. some (length ip);
  somaxconn = pos 4096;
  sys_bind = λ fd addr port. leb 1024 port;
  sys_listen = λ fd backlog. true;
  sys_accept = λ fd. none;
  sys_connect = λ fd addr port. true;
  sys_read = λ fd len. pos 0;
  sys_write = λ fd msg. pos (length msg);
  sys_get_flags = λ fd. some 2;
  with_nonblock = λ flags. flags;
}

abbrev at_port : ℤ → Attempt
at_port port = record { sys = small_system; ip = codes "127.0.0.1"; port = port; created = some 7 }

-- Port 50000 is -15536 as a `short`: the socket is bound to the one, Nacos is given the other.
server_main-ports :
    (server_main (some 3) (at_port (pos 80)) (λ s n i p. true) (codes "S") ≡ null_service)
    × (server_main (some 3) (at_port (negsuc 15535)) (λ s n i p. true) (codes "S")
        ≡ registered 7 (codes "S") (codes "127.0.0.1") (negsuc 15535))
unfolding server_main
server_main-ports = (refl, refl)

discovery_null_example :
    is_null (
      register_discovery
        (λ s n i p. true)
        (bind_all (some 3) new_endpoint (at_port (pos 80) ∷ at_port (pos 8891) ∷ [])).1
        (codes "S"))
    ≡ not (bind_all (some 3) new_endpoint (at_port (pos 80) ∷ at_port (pos 8891) ∷ [])).0
discovery_null_example =
    discovery_null (some 3) (at_port (pos 80) ∷ at_port (pos 8891) ∷ []) (λ s n i p. true)
      (codes "S")
