-- ===== src/Net/Timers/Loops.antt =====
-- src/net/context/EpollContext.cpp: the timers of the loops of `EpollContextImpl`, and `addTimer` of
-- src/net/socket/LinuxSocket.cpp.
use simple_redis_client.Prelude.{
  ℕ, suc, Bool, Option, none, some, List, [], ◌∷◌, ◌==◌, if◌then◌else◌,
}
use simple_redis_client.Net.Context.{route}
use simple_redis_client.Net.Timers.{Timers, no_timers, Addition, add_timer, report_timer}

-- The loops, and the counter of the timers that belong to no socket.
pub record LoopTimers : Type 0 where
  pub loops : ℕ → Timers
  pub next_id : ℕ

abbrev pub no_loop_timers : LoopTimers
no_loop_timers = record { loops = λ i. no_timers; next_id = 0 }

abbrev pub put_timers : LoopTimers → ℕ → Timers → LoopTimers
put_timers c i s = record c { loops = λ j. if i == j then s else c.loops j }

pub data Move : Type 0 where
  -- Of a socket, with whether its context is still there.
  socket_adds : Bool → Option ℕ → Addition → Move
  context_adds : Addition → Move
  epoll_reports : ℕ → ℕ → List Addition → Move
  socket_closes : Option ℕ → Move

module _ (hash : ℕ → ℕ) where
  -- The loop of a descriptor or an id, with what `addTimer` returns.
  unfoldable pub add_at : LoopTimers → ℕ → Addition → LoopTimers × Option ℕ
  unfolding add_timer
  add_at c fd (k, ms, callback) =
      let (s, timer) = add_timer (c.loops (route hash fd)) k ms callback in
      (put_timers c (route hash fd) s, timer)

  -- `EpollContextImpl::addTimer` of a socket, none without a descriptor.
  abbrev pub add_checked : LoopTimers → Option ℕ → Addition → LoopTimers × Option ℕ
  add_checked c none a = (c, none)
  add_checked c (some fd) a = add_at c fd a

  -- `LinuxSocket::addTimer`.
  unfoldable pub add_socket_timer : LoopTimers → Bool → Option ℕ → Addition → LoopTimers × Option ℕ
  unfolding add_at
  add_socket_timer c alive s a = if alive then add_checked c s a else (c, none)

  unfoldable pub add_context_timer : LoopTimers → Addition → LoopTimers × Option ℕ
  unfolding add_at
  add_context_timer c a = add_at (record c { next_id = suc c.next_id }) (suc c.next_id) a

  unfoldable pub move : LoopTimers → Move → LoopTimers
  unfolding add_socket_timer add_context_timer report_timer
  move c (socket_adds alive s a) = (add_socket_timer c alive s a).0
  move c (context_adds a) = (add_context_timer c a).0
  move c (epoll_reports i fd more) = put_timers c i (report_timer (c.loops i) fd more)
  -- `closeConnection` and the destructor of `LinuxSocket` reach no timer.
  move c (socket_closes s) = c

  unfoldable pub run : LoopTimers → List Move → LoopTimers
  unfolding move
  run c [] = c
  run c (m ∷ ms) = run (move c m) ms
