-- ===== src/Queue/Mpmc/Tests.antt =====
-- Runs of the queue with several threads on both sides.
use simple_redis_client.Prelude.{ℕ, ◌≡◌, refl, List, [], ◌∷◌, ◌++◌}
use simple_redis_client.Queue.Mpmc.{Move, calls_push, pushes_on, calls_pop, pops_on, run, new_mpmc}

-- A whole call of `push`, and one of `pop`, by thread `i`.
abbrev whole_push : ℕ → ℕ → List (Move ℕ)
whole_push i x =
    calls_push i x ∷ pushes_on i ∷ pushes_on i ∷ pushes_on i ∷ pushes_on i ∷ pushes_on i ∷ []

-- A call of `pop` up to the slot that it owns, and its end.
abbrev own_slot : ℕ → List (Move ℕ)
own_slot i = calls_pop i ∷ pops_on i ∷ pops_on i ∷ pops_on i ∷ []

abbrev end_pop : ℕ → List (Move ℕ)
end_pop i = pops_on i ∷ pops_on i ∷ pops_on i ∷ []

-- Two items, popped by two threads, in two slots of three.
run-in_turn :
    (run 3 (new_mpmc 3 (λ i. 0)) (
      whole_push 0 7
      ++ (whole_push 1 8 ++ (own_slot 0 ++ (own_slot 1 ++ (end_pop 1 ++ end_pop 0)))))).popped
    ≡ 8 ∷ (7 ∷ [])
unfolding run
run-in_turn = refl

-- A ring of two slots. Thread 0 owns slot 0 with item 7 and stops there; the ring goes round: thread 1
-- pops slot 1, and a push owns slot 0 and waits for it. Thread 2 owns slot 0 too, sees the sequence
-- number that thread 0 has not cleared yet, and both return item 7.
run-popped_twice :
    (run 2 (new_mpmc 2 (λ i. 0)) (
      whole_push 0 7
      ++ (own_slot 0
          ++ (whole_push 0 8
              ++ (own_slot 1
                  ++ (end_pop 1
                      ++ (whole_push 0 9
                          ++ (own_slot 2
                              ++ ((pops_on 0 ∷ pops_on 2 ∷ [])
                                  ++ ((pops_on 0 ∷ pops_on 2 ∷ [])
                                      ++ (pops_on 0 ∷ pops_on 2 ∷ []))))))))))).popped
    ≡ 8 ∷ (7 ∷ (7 ∷ []))
unfolding run
run-popped_twice = refl
