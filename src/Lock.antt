-- ===== src/Lock.antt =====
-- src/utils/thread_pool/lock/SpinLock.cpp: the lock, with the threads that use it. A move is one
-- access of the flag, one pause, or the end of a wait.
pub mod Exclusive
pub mod Progress
mod Tests
use simple_redis_client.Prelude.{
  ℕ, ◌+◌, ◌^◌, min, Bool, true, false, List, [], ◌∷◌, ltb, ◌==◌, if◌then◌else◌,
}

-- Where a thread stands; `backoff` and `i` are the locals of `lock`.
pub data Pc : Type 0 where
  outside : Pc
  reading : (backoff : ℕ) → Pc
  exchanging : (backoff : ℕ) → Pc
  pausing : (backoff i : ℕ) → Pc
  inside : Pc

pub record SpinLock : Type 0 where
  pub flag : Bool
  pub pc : ℕ → Pc

abbrev pub update : (ℕ → Pc) → ℕ → Pc → ℕ → Pc
update pc i p j = if i == j then p else pc j

abbrev pub pauses : ℕ → ℕ
pauses backoff = 2 ^ min backoff 8

-- `yield` changes nothing here.
abbrev pub next_backoff : ℕ → ℕ
next_backoff backoff = if ltb backoff 16 then backoff + 1 else backoff

-- The next move of a thread: `lock()` is called from `outside`, `unlock()` from `inside`.
unfoldable pub access : Bool → Pc → Bool × Pc
access flag outside = (flag, reading 0)
access flag (reading backoff) =
    if flag then (flag, pausing backoff 0) else (flag, exchanging backoff)
access flag (exchanging backoff) = if flag then (true, pausing backoff 0) else (true, inside)
access flag (pausing backoff i) =
    if ltb i (pauses backoff)
    then (flag, pausing backoff (i + 1))
    else (flag, reading (next_backoff backoff))
access flag inside = (false, outside)

unfoldable pub move : SpinLock → ℕ → SpinLock
unfolding access
move lock i =
    let (flag, p) = access lock.flag (lock.pc i) in record { flag = flag; pc = update lock.pc i p }

-- The threads interleaved: which of them makes each move.
unfoldable pub run : SpinLock → List ℕ → SpinLock
unfolding move
run lock [] = lock
run lock (i ∷ is) = run (move lock i) is

abbrev pub new_lock : SpinLock
new_lock = record { flag = false; pc = λ i. outside }
