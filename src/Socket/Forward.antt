-- ===== src/Socket/Forward.antt =====
-- src/net/socket/LinuxSocket.cpp: the operations that a `LinuxSocket` passes to its context, and the
-- tasks that src/net/context/EpollContext.cpp makes of them. The context may have ended.
use simple_redis_client.Prelude.{ℕ, Bool, Option, List, Bytes, [], ◌∷◌, ◌++◌, if◌then◌else◌}
use simple_redis_client.Net.Context.{
  Task, register_accept, register_read, async_write_once, async_write_batch, remove_socket,
  register_high_level, register_low_level, register_close_callback, Move, submit,
}

-- Without its context an operation only logs.
abbrev pub forward : Bool → Option ℕ → Task → List Move
forward alive s t = if alive then submit s t ∷ [] else []

abbrev pub close : Bool → Option ℕ → List Move
close alive s = forward alive s remove_socket

abbrev pub async_accept : Bool → Option ℕ → Option ℕ → List Move
async_accept alive s callback = forward alive s (register_accept callback)

abbrev pub async_read : Bool → Option ℕ → List Move
async_read alive s = forward alive s register_read

abbrev pub write_once : Bool → Option ℕ → Option ℕ → Bytes → List Move
write_once alive s callback buf = forward alive s (async_write_once callback buf)

abbrev pub write_batch : Bool → Option ℕ → (ℕ → ℕ) → List Bytes → List Move
write_batch alive s callbacks bufs = forward alive s (async_write_batch callbacks bufs)

abbrev pub on_low_level : Bool → Option ℕ → List Move
on_low_level alive s = forward alive s register_low_level

abbrev pub on_high_level : Bool → Option ℕ → List Move
on_high_level alive s = forward alive s register_high_level

abbrev pub on_close : Bool → Option ℕ → List Move
on_close alive s = forward alive s register_close_callback

-- A call of one of them.
pub data Request : Type 0 where
  closes : Request
  async_accepts : Option ℕ → Request
  async_reads : Request
  writes_once : Option ℕ → Bytes → Request
  writes_batch : (ℕ → ℕ) → List Bytes → Request
  sets_low_level : Request
  sets_high_level : Request
  sets_close : Request

abbrev pub request : Bool → Option ℕ → Request → List Move
request alive s closes = close alive s
request alive s (async_accepts callback) = async_accept alive s callback
request alive s async_reads = async_read alive s
request alive s (writes_once callback buf) = write_once alive s callback buf
request alive s (writes_batch callbacks bufs) = write_batch alive s callbacks bufs
request alive s sets_low_level = on_low_level alive s
request alive s sets_high_level = on_high_level alive s
request alive s sets_close = on_close alive s

-- Calls on several sockets, each with whether the context is still there.
unfoldable pub requests : List (Bool × Option ℕ × Request) → List Move
requests [] = []
requests ((alive, s, r) ∷ rs) = request alive s r ++ requests rs
