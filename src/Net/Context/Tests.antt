-- ===== src/Net/Context/Tests.antt =====
-- Runs of an `EpollContextImpl` with two sockets.
use simple_redis_client.Prelude.{◌≡◌, refl, true, false, none, some, List, [], ◌∷◌, ◌++◌, codes}
use simple_redis_client.Net.Connection.{closing, write_callback}
use simple_redis_client.Net.Read.{received}
use simple_redis_client.Net.Write.{sent}
use simple_redis_client.Net.Context.{
  unknown, called, accept_called, register_accept, register_close_callback, async_write_once,
  remove_socket, Report, Move, submit, loop_runs, epoll_reports, route, run, new_context,
}
use simple_redis_client.Net.Context.Descriptors.{of_fd, tasks_of, steps}
use simple_redis_client.Net.Context.Separate.{sockets_separate}

abbrev writes : Report
writes = record { hung_up = false; readable = none; writable = some (sent 1) }

abbrev reads : Report
reads = record {
  hung_up = false;
  readable = some ((λ buf n. 0), received (codes "x"));
  writable = none;
}

-- Socket 5 accepts in loop 1; socket 8 writes in loop 0, and is removed.
abbrev two_sockets : List Move
two_sockets =
    submit (some 8) (async_write_once (some 3) (codes "hi"))
    ∷ submit (some 5) (register_accept (some 7))
    ∷ submit none (async_write_once (some 4) (codes "no"))
    ∷ loop_runs 1
    ∷ epoll_reports 1 5 reads
    ∷ loop_runs 0
    ∷ submit (some 8) register_close_callback
    ∷ epoll_reports 0 8 writes
    ∷ loop_runs 0
    ∷ submit (some 8) remove_socket
    ∷ loop_runs 0
    ∷ []

run-two_sockets :
    ((run 1024 (λ fd. fd) new_context two_sockets).tables 1 5).calls ≡ accept_called 7 ∷ []
unfolding run
run-two_sockets = refl

run-removed :
    ((run 1024 (λ fd. fd) new_context two_sockets).tables 0 8).calls
    ≡ called (write_callback 3 true) ∷ (called closing ∷ [])
unfolding run
run-removed = refl

run-refused :
    (run 1024 (λ fd. fd) new_context two_sockets).refused
    ≡ async_write_once (some 4) (codes "no") ∷ []
unfolding run
run-refused = refl

sockets_separate_example :
    ((run 1024 (λ fd. fd) new_context two_sockets).tables (route (λ fd. fd) 8) 8
      ≡ steps 1024 unknown (of_fd 8 (run 1024 (λ fd. fd) new_context two_sockets).executed))
    × (of_fd 8 (run 1024 (λ fd. fd) new_context two_sockets).submitted
        ≡ tasks_of (of_fd 8 (run 1024 (λ fd. fd) new_context two_sockets).executed)
          ++ of_fd 8 ((run 1024 (λ fd. fd) new_context two_sockets).queues (route (λ fd. fd) 8)))
sockets_separate_example = sockets_separate 1024 (λ fd. fd) two_sockets 8
