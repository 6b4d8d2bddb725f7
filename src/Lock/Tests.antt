-- ===== src/Lock/Tests.antt =====
-- Runs of the spin lock.
use simple_redis_client.Prelude.{ℕ, ◌≤◌, ◌≡◌, refl, true, false, List, [], ◌∷◌, replicate, arith}
use simple_redis_client.Lock.{pausing, inside, SpinLock, run, new_lock}
use simple_redis_client.Lock.Exclusive.{lock_excludes}
use simple_redis_client.Lock.Progress.{lock_free_enters}

-- Both threads see the flag clear; the second to exchange it waits.
abbrev both : List ℕ
both = 0 ∷ 1 ∷ 0 ∷ 1 ∷ 0 ∷ 1 ∷ []

run-both : ((run new_lock both).pc 0 ≡ inside) × ((run new_lock both).pc 1 ≡ pausing 0 0)
unfolding run
run-both = (refl, refl)

lock_excludes_example : (◌≡◌ {A = ℕ} 0 0) × ((run new_lock both).flag ≡ true)
lock_excludes_example = lock_excludes both 0 0 run-both.0 run-both.0

abbrev waiting : SpinLock
waiting = record { flag = false; pc = λ i. pausing 1 0 }

lock_free_enters_example : ((run waiting (replicate 5 7)).pc 7 ≡ inside) × (◌≤◌ 5 259)
lock_free_enters_example = lock_free_enters waiting 7 refl (omega arith)
