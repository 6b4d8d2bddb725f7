-- ===== src/Client/Pipeline.antt =====
-- src/app/redis/SimpleRedisClient.cpp: the commands of one connection, from `execute` and the batching
-- `execute1` through the socket, which reports the writes in the order in which they are given to it,
-- to the replies.
pub mod Answers
pub mod Kept
pub mod InOrder
mod Tests
use simple_redis_client.Prelude.{
  ℕ, Bool, true, false, List, Bytes, [], ◌∷◌, ◌++◌, leb, length, if◌then◌else◌,
}
use simple_redis_client.Client.{
  RedisConnection, Settled, value, to_many_bytes, write_error, Read, returned, overflowed, read,
  written,
}

-- A write that the socket has. Not in the source: the promise `p` made with a command of a batch.
pub data Out : Type 0 where
  once : ℕ → Bytes → Out
  batch_item : ℕ → Bytes → Out

-- Not in the source: `writing_ids`, the promises made with `writing_cmds`, and `sent_ids` and
-- `failed_ids`, the promises made with the commands whose writes have ended, oldest first.
pub record Pipeline : Type 0 where
  pub conn : RedisConnection
  pub in_flight : List Out
  pub settled : List Settled
  pub writing_ids : List ℕ
  pub sent_ids : List ℕ
  pub failed_ids : List ℕ

abbrev pub write_batch_size : ℕ
write_batch_size = 1000

abbrev pub batch_items : List ℕ → List Bytes → List Out
batch_items (p ∷ ps) (cmd ∷ cmds) = batch_item p cmd ∷ batch_items ps cmds
batch_items _ _ = []

-- `flush` in `execute1`. An empty batch is not written.
unfoldable pub flush : Pipeline → Pipeline
flush s = record s {
  conn = record s.conn { writing_cmds = [] };
  in_flight = s.in_flight ++ batch_items s.writing_ids s.conn.writing_cmds;
  writing_ids = [];
}

abbrev pub set_flush_time : Pipeline → Bool → Pipeline
set_flush_time s b = record s { conn = record s.conn { flush_time = b } }

-- The end of the task of `execute1`; `timer_set` is whether `addTimer` gives a timer.
abbrev pub flush_or_wait : Bool → Pipeline → Pipeline
flush_or_wait timer_set s =
    if leb write_batch_size (length s.conn.writing_cmds)
    then flush s
    else if s.conn.flush_time
    then s
    else if timer_set
    then flush (set_flush_time s true)
    else s

abbrev pub add_command : Pipeline → ℕ → Bytes → Pipeline
add_command s p cmd = record s {
  conn = record s.conn {
    writing_cmds = s.conn.writing_cmds ++ (cmd ∷ []);
    writing_promises = s.conn.writing_promises ++ (p ∷ []);
  };
  writing_ids = s.writing_ids ++ (p ∷ []);
}

-- `batch_write_callback`; the promises have one for each write of a batch.
abbrev pub batch_written : Bool → RedisConnection → List ℕ → RedisConnection × List Settled
batch_written success conn [] = (conn, [])
batch_written true conn (p ∷ ps) =
    (record conn { writing_promises = ps; promises = conn.promises ++ (p ∷ []) }, [])
batch_written false conn (p ∷ ps) = (record conn { writing_promises = ps }, write_error p ∷ [])

abbrev pub after_callback :
    Pipeline → List Out → Bool → ℕ → RedisConnection × List Settled → Pipeline
after_callback s out true p (conn, settled) = record s {
  conn = conn;
  in_flight = out;
  settled = s.settled ++ settled;
  sent_ids = s.sent_ids ++ (p ∷ []);
}
after_callback s out false p (conn, settled) = record s {
  conn = conn;
  in_flight = out;
  settled = s.settled ++ settled;
  failed_ids = s.failed_ids ++ (p ∷ []);
}

-- The first write has ended, and its callback is called.
unfoldable pub write_ends : Pipeline → Bool → List Out → Pipeline
unfolding written
write_ends s success [] = s
write_ends s success (once p cmd ∷ out) = after_callback s out success p (written s.conn p success)
write_ends s success (batch_item p cmd ∷ out) =
    after_callback s out success p (batch_written success s.conn s.conn.writing_promises)

abbrev pub after_reply : Pipeline → Read → Pipeline
after_reply s (returned pos waiting settled) = record s {
  conn = record s.conn { promises = waiting };
  settled = s.settled ++ settled;
}
after_reply s overflowed = s

abbrev pub refuse : Pipeline → ℕ → Pipeline
refuse s p = record s { settled = s.settled ++ (to_many_bytes p ∷ []) }

pub data Move : Type 0 where
  execute : ℕ → Bytes → Move
  execute1 : ℕ → Bytes → Bool → Move
  timer : Move
  write_end : Bool → Move
  reply : Bytes → ℕ → Move

module _ (fuel m : ℕ) where
  unfoldable pub move : Pipeline → Move → Pipeline
  unfolding flush write_ends read
  move s (execute p cmd) =
      if s.conn.high_level
      then refuse s p
      else record s { in_flight = s.in_flight ++ (once p cmd ∷ []) }
  move s (execute1 p cmd timer_set) =
      if s.conn.high_level then refuse s p else flush_or_wait timer_set (add_command s p cmd)
  move s timer = set_flush_time (flush s) false
  move s (write_end success) = write_ends s success s.in_flight
  move s (reply buf size) = after_reply s (read fuel m s.conn buf size)

  unfoldable pub run : Pipeline → List Move → Pipeline
  unfolding move
  run s [] = s
  run s (x ∷ xs) = run (move s x) xs

abbrev pub new_pipeline : Pipeline
new_pipeline = record {
  conn = record {
    promises = [];
    writing_promises = [];
    writing_cmds = [];
    flush_time = false;
    high_level = false;
  };
  in_flight = [];
  settled = [];
  writing_ids = [];
  sent_ids = [];
  failed_ids = [];
}
