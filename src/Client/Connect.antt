-- ===== src/Client/Connect.antt =====
-- src/app/redis/SimpleRedisClient.cpp: `connect` and `close` of `ClientImpl`, with its sockets and the
-- event loops.
pub mod Connected
mod Tests
use simple_redis_client.Prelude.{
  ℕ, Bool, true, false, ◌&&◌, Option, none, some, List, Bytes, [], ◌∷◌, if◌then◌else◌,
}
use simple_redis_client.Socket
use simple_redis_client.Socket.{System, is_success}
use simple_redis_client.Socket.Forward.{Request, closes, async_reads, requests}
use simple_redis_client.Net.Context
use simple_redis_client.Net.Context.{Context}

-- The event loops' context, and whether `run` has started them.
pub record Network : Type 0 where
  pub context : Context
  pub running : Bool

-- `res &= client.socket->connect(...)`: every socket is tried.
unfoldable pub connect_each : System → List (Option ℕ) → Bytes → ℕ → Bool
connect_each sys [] host port = true
connect_each sys (s ∷ sockets) host port =
    let rest = connect_each sys sockets host port in
    is_success (Socket.connect sys s host port).0 && rest

-- The same call on every client's socket.
abbrev pub on_each : Request → List (Option ℕ) → List (Bool × Option ℕ × Request)
on_each r [] = []
on_each r (s ∷ sockets) = (true, s, r) ∷ on_each r sockets

module _ (iov_max : ℕ) (hash : ℕ → ℕ) where
  abbrev pub call_each : Network → Request → List (Option ℕ) → Network
  call_each n r sockets = record n {
    context = Context.run iov_max hash n.context (requests (on_each r sockets));
  }

  abbrev pub close : Network → List (Option ℕ) → Network
  close n sockets = record (call_each n closes sockets) { running = false }

  unfoldable pub connect : System → Network → List (Option ℕ) → Bytes → ℕ → Bool × Network
  unfolding connect_each
  connect sys n sockets host port =
      if connect_each sys sockets host port
      then (true, record (call_each n async_reads sockets) { running = true })
      else (false, close n sockets)
