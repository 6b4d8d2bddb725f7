-- ===== src/Client.antt =====
-- src/app/redis/SimpleRedisClient.cpp: a connection of the client and the handlers that change it.
-- A `std::promise` is a number; what a handler does to promises is the list it returns.
pub mod Replies
pub mod Padding
pub mod Negative
pub mod Words
pub mod Pipeline
pub mod Connect
mod Tests
use simple_redis_client.Prelude.{
  ℕ, zero, suc, ◌+◌, ◌%◌, ◌^◌, Bool, true, false, Option, none, some, List, Bytes, [], ◌∷◌, ◌++◌,
  ltb, leb, length, if◌then◌else◌,
}
use simple_redis_client.Resp.Types.{RespValue}
use simple_redis_client.Resp.Number.{is_space}
use simple_redis_client.Resp.Parser.{Parsed, ok, incomplete, failed, stuck, parse}
use simple_redis_client.Resp.Command.{build_resp_command}

-- The state that the handlers use: the promises of the commands that are written, in the order
-- written, and whether the socket is above its high water mark.
pub record RedisConnection : Type 0 where
  promises : List ℕ
  writing_promises : List ℕ
  writing_cmds : List Bytes
  flush_time : Bool
  high_level : Bool

-- `set_value` and `set_exception`.
pub data Settled : Type 0 where
  value : ℕ → RespValue → Settled
  to_many_bytes : ℕ → Settled
  write_error : ℕ → Settled

-- What a call of `read` leaves: the position it returns, the promises that still wait, and the ones
-- it settled. `overflowed` is a call stack that was too small for the nesting of a reply.
pub data Read : Type 0 where
  returned : ℕ → List ℕ → List Settled → Read
  overflowed : Read

abbrev pub settle_first : ℕ → RespValue → Read → Read
settle_first p v (returned pos waiting settled) = returned pos waiting (value p v ∷ settled)
settle_first p v overflowed = overflowed

-- The loop of `read`. Each round but the last takes a promise from the queue, and a reply with no
-- promise left ends it.
unfoldable pub read_loop : ℕ → ℕ → Bytes → ℕ → List ℕ → ℕ → Read
read_loop fuel m buf size [] pos =
    if ltb pos size
    then (elim (parse fuel m buf pos) [
      | ok v after ↦ returned after [] []
      | incomplete ↦ returned pos [] []
      | failed ↦ returned (pos + 1) [] []
      | stuck ↦ overflowed
    ])
    else returned pos [] []
read_loop fuel m buf size (p ∷ ps) pos =
    if ltb pos size
    then (elim (parse fuel m buf pos) [
      | ok v after ↦ settle_first p v (read_loop fuel m buf size ps after)
      | incomplete ↦ returned pos (p ∷ ps) []
      | failed ↦ returned (pos + 1) (p ∷ ps) []
      | stuck ↦ overflowed
    ])
    else returned pos (p ∷ ps) []

-- `read(connection, buf, size)`: `buf` is the whole read buffer, of which `size` bytes were received.
unfoldable pub read : ℕ → ℕ → RedisConnection → Bytes → ℕ → Read
unfolding read_loop
read fuel m conn buf size = read_loop fuel m buf size conn.promises 0

-- `execute(std::string cmd)` on the chosen connection: refused, or given to `asyncWriteOnce`.
pub data Executed : Type 0 where
  refused : Settled → Executed
  write_once : Bytes → Executed

abbrev pub execute : RedisConnection → ℕ → Bytes → Executed
execute conn p cmd = if conn.high_level then refused (to_many_bytes p) else write_once cmd

-- Its callback when the write has ended.
unfoldable pub written : RedisConnection → ℕ → Bool → RedisConnection × List Settled
written conn p success =
    if success
    then (record conn { promises = conn.promises ++ (p ∷ []) }, [])
    else (conn, write_error p ∷ [])

-- `++counter % clients.size()` for a `std::size_t`; `std::hash` of a size is the size (libstdc++).
abbrev pub which_sock : ℕ → ℕ → ℕ
which_sock counter clients = (suc counter % 2 ^ 64) % clients

-- A word is not empty.
abbrev pub emit : Bytes → List Bytes → List Bytes
emit [] rest = rest
emit (c ∷ word) rest = (c ∷ word) ∷ rest

-- `iss >> word`, with the word read so far.
unfoldable pub words : Bytes → Bytes → List Bytes
words word [] = emit word []
words word (c ∷ s) = elim (is_space c) [
  | true ↦ emit word (words [] s)
  | false ↦ words (word ++ (c ∷ [])) s
]

-- `execute(const std::string& cmd)`: the words as arguments.
unfoldable pub command_of : Bytes → Bytes
unfolding words build_resp_command
command_of cmd = build_resp_command (words [] cmd)
