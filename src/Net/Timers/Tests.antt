-- ===== src/Net/Timers/Tests.antt =====
-- A run of timers.
use simple_redis_client.Prelude.{
  ℕ, ◌+◌, ◌*◌, ◌<◌, ◌≡◌, refl, true, false, not, none, some, List, [], ◌∷◌, ◌==◌,
}
use simple_redis_client.Net.Timers.{Calls, Timers, it_value, arms}
use simple_redis_client.Net.Timers.Loops.{
  Move, socket_adds, context_adds, epoll_reports, socket_closes, no_loop_timers, run,
}
use simple_redis_client.Net.Timers.Once.{timers_called_once, it_value_lem}
use simple_redis_client.Pool.Count.{count}

abbrev given : ℕ → Calls
given fd = record { timerfd_create = some fd; timerfd_settime = true; epoll_ctl = true }

-- On loop 1. Timer 5's callback adds a timer while descriptor 5 is still open; then 5 is given again.
-- The time of the last timer is zero, one timer fails in each of the three ways, and two come without
-- a descriptor or a context. The socket is closed before descriptor 6 expires.
abbrev four_timers : List Move
four_timers =
    socket_adds true (some 9) (given 5, 1500, some 100)
    ∷ socket_adds true none (given 6, 10, some 107)
    ∷ socket_adds false (some 9) (given 6, 10, some 108)
    ∷ socket_adds true (some 9) (record (given 6) { epoll_ctl = false }, 10, some 101)
    ∷ socket_adds true (some 9) (record (given 6) { timerfd_settime = false }, 10, some 102)
    ∷ context_adds (record (given 6) { timerfd_create = none }, 10, some 103)
    ∷ epoll_reports 1 5 ((given 6, 10, some 104) ∷ [])
    ∷ socket_adds true (some 9) (given 5, 10, some 105)
    ∷ socket_closes (some 9)
    ∷ epoll_reports 1 6 []
    ∷ epoll_reports 1 6 []
    ∷ epoll_reports 1 5 []
    ∷ socket_adds true (some 9) (given 5, 0, some 106)
    ∷ epoll_reports 1 5 []
    ∷ []

abbrev after_four : Timers
after_four = (run (λ fd. fd) no_loop_timers four_timers).loops 1

run-four_timers : after_four.called ≡ 100 ∷ (104 ∷ (105 ∷ []))
unfolding run
run-four_timers = refl

timers_called_once_example :
    count 100 after_four.called + count 100 after_four.untimed ≡ count 100 after_four.added
timers_called_once_example = timers_called_once (λ fd. fd) four_timers 1 100 (unfold run in refl)

it_value_lem_example :
    ((it_value 1500).0 * 1000000000 + (it_value 1500).1 ≡ 1500 * 1000000)
    × ((it_value 1500).1 < 1000000000)
    × (arms (it_value 1500) ≡ not (1500 == 0))
it_value_lem_example = it_value_lem 1500
