-- ===== src/Client/Pipeline/Tests.antt =====
-- A run of the client's commands.
use simple_redis_client.Prelude.{◌≡◌, refl, true, false, List, [], ◌∷◌, ◌++◌, codes}
use simple_redis_client.Resp.Types.{simple_string, resp, str}
use simple_redis_client.Resp.Parser.{parse_value}
use simple_redis_client.Client.{value, write_error}
use simple_redis_client.Client.Pipeline.{
  Move, execute, execute1, timer, write_end, reply, run, new_pipeline,
}
use simple_redis_client.Client.Pipeline.Answers.{answered, write_errors}
use simple_redis_client.Client.Pipeline.InOrder.{replies_in_order}

-- The first `execute1` is written at once, the second with the timer, behind a command of `execute`.
abbrev mixed : List Move
mixed =
    execute1 1 (codes "a") true
    ∷ execute1 2 (codes "b") true
    ∷ execute 3 (codes "c")
    ∷ write_end true
    ∷ timer
    ∷ write_end true
    ∷ reply (codes "+A\r\n+B\r\n") 8
    ∷ write_end false
    ∷ []

run-mixed :
    (run 1 100 new_pipeline mixed).settled
    ≡ value 1 (resp simple_string (str (codes "A")))
      ∷ (value 3 (resp simple_string (str (codes "B"))) ∷ (write_error 2 ∷ []))
unfolding run parse_value
run-mixed = refl

replies_in_order_example :
    (answered (run 1 100 new_pipeline mixed).settled ++ (run 1 100 new_pipeline mixed).conn.promises
      ≡ (run 1 100 new_pipeline mixed).sent_ids)
    × (write_errors (run 1 100 new_pipeline mixed).settled
        ≡ (run 1 100 new_pipeline mixed).failed_ids)
replies_in_order_example = replies_in_order 1 100 mixed
