-- ===== src/Net/Context.antt =====
-- src/net/context/EpollContext.cpp: what an `EventLoopThread` has of a descriptor, what its tasks and
-- epoll's reports do to it, and `EpollContextImpl`, which gives the tasks of a socket to one of its
-- loops.
pub mod Descriptors
pub mod Steps
pub mod Submits
pub mod Separate
mod Tests
use simple_redis_client.Prelude.{
  ℕ, ◌+◌, ◌%◌, Bool, true, false, Option, none, some, List, Bytes, [], ◌∷◌, ◌++◌, ◌==◌,
  if◌then◌else◌,
}
use simple_redis_client.Net.Connection.{
  Connection, Interest, absent, watching, ctl_add, ctl_del, Event, Handled, kept, closed,
}
use simple_redis_client.Net.Write
use simple_redis_client.Net.Write.{
  Writev, do_async_write_once, do_async_write_batch, handle_write, close_connection,
}
use simple_redis_client.Net.Read.{SocketRead, ReadHandled, read_kept, read_closed, handle_read}
use simple_redis_client.Net.Register.{
  do_register_read, do_register_high_level_callback, do_register_low_level_callback,
  do_register_close_callback,
}

-- The calls of callbacks; an accept callback is a number.
pub data Call : Type 0 where
  called : Event → Call
  read_called : Bytes → ℕ → Call
  accept_called : ℕ → Call

abbrev pub as_calls : List Event → List Call
as_calls [] = []
as_calls (e ∷ es) = called e ∷ as_calls es

abbrev pub as_read_calls : List (Bytes × ℕ) → List Call
as_read_calls [] = []
as_read_calls ((b, n) ∷ rs) = read_called b n ∷ as_read_calls rs

-- The entries of `accept_socket_set_` and `connections_` at one descriptor, what epoll watches of it,
-- and the calls that were made for it, oldest first.
pub record Descriptor : Type 0 where
  pub accept : Option (Option ℕ)
  pub connection : Option Connection
  pub watched : Interest
  pub calls : List Call

abbrev pub unknown : Descriptor
unknown = record { accept = none; connection = none; watched = absent; calls = [] }

abbrev pub after_handled : Descriptor → Handled → Descriptor
after_handled d (kept conn watched events) = record d {
  connection = some conn;
  watched = watched;
  calls = d.calls ++ as_calls events;
}
after_handled d (closed events) = record d {
  connection = none;
  watched = absent;
  calls = d.calls ++ as_calls events;
}

abbrev pub after_read : Descriptor → ReadHandled → Descriptor
after_read d (read_kept conn watched reads) = record d {
  connection = some conn;
  watched = watched;
  calls = d.calls ++ as_read_calls reads;
}
after_read d (read_closed events) = record d {
  connection = none;
  watched = absent;
  calls = d.calls ++ as_calls events;
}

-- The tasks that are posted for a descriptor.
pub data Task : Type 0 where
  register_accept : Option ℕ → Task
  register_read : Task
  async_write_once : Option ℕ → Bytes → Task
  async_write_batch : (ℕ → ℕ) → List Bytes → Task
  remove_socket : Task
  register_high_level : Task
  register_low_level : Task
  register_close_callback : Task

-- What epoll reports of a descriptor, with the results of the calls that the handlers make.
pub record Report : Type 0 where
  pub hung_up : Bool
  pub readable : Option ((Bytes → ℕ → ℕ) × SocketRead)
  pub writable : Option Writev

abbrev pub do_register_accept : Descriptor → Option ℕ → Option (Option ℕ) → Descriptor
do_register_accept d callback none = record d {
  accept = some callback;
  watched = ctl_add true false d.watched;
}
do_register_accept d callback (some old) = record d { accept = some callback }

abbrev pub close_unless_accept : Descriptor → Option (Option ℕ) → Option Connection → Descriptor
close_unless_accept d (some callback) conn = record d { accept = none; watched = ctl_del d.watched }
close_unless_accept d none none = record d { watched = ctl_del d.watched }
close_unless_accept d none (some conn) = after_handled d (closed (close_connection conn))

-- `closeConnection`.
unfoldable pub close_descriptor : Descriptor → Descriptor
unfolding Write.close_connection
close_descriptor d = close_unless_accept d d.accept d.connection

-- On an unknown connection these only log.
abbrev pub with_connection : Descriptor → Option Connection → Descriptor
with_connection d conn = record d { connection = conn }

unfoldable pub run_task : Descriptor → Task → Descriptor
unfolding do_register_read do_async_write_once do_async_write_batch close_descriptor
run_task d (register_accept callback) = do_register_accept d callback d.accept
run_task d register_read = after_handled d (do_register_read d.connection d.watched)
run_task d (async_write_once callback buf) =
    after_handled d (do_async_write_once d.connection d.watched callback buf)
run_task d (async_write_batch callbacks bufs) =
    after_handled d (do_async_write_batch d.connection d.watched callbacks bufs)
run_task d remove_socket = close_descriptor d
run_task d register_high_level = with_connection d (do_register_high_level_callback d.connection)
run_task d register_low_level = with_connection d (do_register_low_level_callback d.connection)
run_task d register_close_callback = with_connection d (do_register_close_callback d.connection)

-- `handleAccept`, with an accept callback that is set or empty.
abbrev pub handle_accept : Descriptor → Option ℕ → Descriptor
handle_accept d none = d
handle_accept d (some callback) = record d { calls = d.calls ++ (accept_called callback ∷ []) }

-- `handleRead`.
abbrev pub handle_read_at :
    Descriptor
    → Option ((Bytes → ℕ → ℕ) × SocketRead)
    → Option (Option ℕ)
    → Option Connection
    → Descriptor
handle_read_at d none accept conn = d
handle_read_at d (some (read_cb, result)) (some callback) conn = handle_accept d callback
handle_read_at d (some (read_cb, result)) none none = d
handle_read_at d (some (read_cb, result)) none (some conn) =
    after_read d (handle_read read_cb conn d.watched result)

-- `handleWrite`.
abbrev pub handle_write_at : ℕ → Descriptor → Option Writev → Option Connection → Descriptor
handle_write_at iov_max d none conn = d
handle_write_at iov_max d (some result) none = d
handle_write_at iov_max d (some result) (some conn) =
    after_handled d (handle_write iov_max conn d.watched result)

module _ (iov_max : ℕ) where
  -- The body of the loop over epoll's events in `run`.
  unfoldable pub handle_report : Descriptor → Report → Descriptor
  unfolding close_descriptor handle_read handle_write
  handle_report d r =
      if r.hung_up
      then close_descriptor d
      else (let read = handle_read_at d r.readable d.accept d.connection in
          handle_write_at iov_max read r.writable read.connection)

-- What happens to a descriptor.
pub data Step : Type 0 where
  task : Task → Step
  report : Report → Step

pub record Context : Type 0 where
  pub queues : ℕ → List (ℕ × Task)
  pub tables : ℕ → ℕ → Descriptor
  -- The tasks of an invalid socket, whose callbacks are told at once that they failed.
  pub refused : List Task
  -- Not in the source: the tasks posted and the steps made, oldest first.
  pub submitted : List (ℕ × Task)
  pub executed : List (ℕ × Step)

pub data Move : Type 0 where
  submit : Option ℕ → Task → Move
  loop_runs : ℕ → Move
  epoll_reports : ℕ → ℕ → Report → Move

abbrev pub loop_size : ℕ
loop_size = 4

-- A write reports its failure, the other calls only log.
abbrev pub refusal : Task → List Task
refusal (async_write_once (some callback) buf) = async_write_once (some callback) buf ∷ []
refusal (async_write_batch callbacks bufs) = async_write_batch callbacks bufs ∷ []
refusal other = []

abbrev pub is_absent : Interest → Bool
is_absent absent = true
is_absent (watching input output) = false

abbrev pub put_queue : (ℕ → List (ℕ × Task)) → ℕ → List (ℕ × Task) → ℕ → List (ℕ × Task)
put_queue queues i q j = if i == j then q else queues j

-- `hash` is `std::hash<int>`.
abbrev pub route : (ℕ → ℕ) → ℕ → ℕ
route hash fd = hash fd % loop_size

module _ (iov_max : ℕ) where
  unfoldable pub step : Descriptor → Step → Descriptor
  unfolding run_task handle_report
  step d (task t) = run_task d t
  step d (report r) = handle_report iov_max d r

  -- A step of descriptor `fd` in loop `i`.
  abbrev pub make_step : Context → ℕ → ℕ → Step → Context
  make_step c i fd s = record c {
    tables = λ j k.
        if i == j then (if fd == k then step (c.tables i fd) s else c.tables j k) else c.tables j k;
    executed = c.executed ++ ((fd, s) ∷ []);
  }

  abbrev pub first_task : Context → ℕ → List (ℕ × Task) → Context
  first_task c i [] = c
  first_task c i ((fd, t) ∷ q) =
      make_step (record c { queues = put_queue c.queues i q }) i fd (task t)

module _ (iov_max : ℕ) (hash : ℕ → ℕ) where
  unfoldable pub move : Context → Move → Context
  unfolding step
  move c (submit none t) = record c { refused = c.refused ++ refusal t }
  move c (submit (some fd) t) = record c {
    queues = put_queue c.queues (route hash fd) (c.queues (route hash fd) ++ ((fd, t) ∷ []));
    submitted = c.submitted ++ ((fd, t) ∷ []);
  }
  move c (loop_runs i) = first_task iov_max c i (c.queues i)
  move c (epoll_reports i fd r) =
      if is_absent (c.tables i fd).watched then c else make_step iov_max c i fd (report r)

  unfoldable pub run : Context → List Move → Context
  unfolding move
  run c [] = c
  run c (m ∷ ms) = run (move c m) ms

abbrev pub new_context : Context
new_context = record {
  queues = λ i. [];
  tables = λ i fd. unknown;
  refused = [];
  submitted = [];
  executed = [];
}
