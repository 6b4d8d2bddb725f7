-- ===== src/Lock/Exclusive.antt =====
-- Mutual exclusion of the spin lock, the bounds of its waits, and that a free lock is taken.
use native.Mathlib.Nat.{pow-le-pow_right}
use simple_redis_client.Prelude.{
  ℕ, ◌≤◌, ◌≡◌, ◌≢◌, refl, min, Bool, true, false, List, [], ◌∷◌, ltb, arith, Bool-cases, inl, inr,
}
use simple_redis_client.Lock.{
  Pc, outside, reading, exchanging, pausing, inside, SpinLock, pauses, access, move, run, new_lock,
}

-- How long a thread pauses at most.
abbrev pub IsBounded : Pc → Type 0
IsBounded (reading backoff) = backoff ≤ 16
IsBounded (exchanging backoff) = backoff ≤ 16
IsBounded (pausing backoff i) = (backoff ≤ 16) × (i ≤ pauses backoff) × (pauses backoff ≤ 256)
IsBounded _ = Unit

-- One thread at most is inside, and the flag is set while one is.
pub record IsExclusive (lock : SpinLock) : Type 0 where
  pub held : (i : ℕ) → lock.pc i ≡ inside → lock.flag ≡ true
  pub alone : (i j : ℕ) → lock.pc i ≡ inside → lock.pc j ≡ inside → i ≡ j
  pub bounded : (i : ℕ) → IsBounded (lock.pc i)

pauses-le : (backoff : ℕ) → pauses backoff ≤ 256
pauses-le backoff = pow-le-pow_right {n = 2} (omega arith) {i = min backoff 8} {j = 8} (omega arith)

access-IsBounded : (flag : Bool) (p : Pc) → IsBounded p → IsBounded (access flag p).1
unfolding access
access-IsBounded flag outside h = omega arith
access-IsBounded true (reading b) h = (h, omega arith, pauses-le b)
access-IsBounded false (reading b) h = h
access-IsBounded true (exchanging b) h = (h, omega arith, pauses-le b)
access-IsBounded false (exchanging b) h = tt
access-IsBounded flag (pausing b i) h = elim (Bool-cases (ltb i (pauses b))) [
  | inl e ↦ rw e (h.0, ground arith, h.2)
  | inr e ↦ rw e (ground arith)
]
access-IsBounded flag inside h = tt

-- Only a thread that finds the flag clear gets inside, and it sets the flag.
access-inside :
    (flag : Bool) (p : Pc)
    → (access flag p).1 ≡ inside
    → (flag ≡ false) × ((access flag p).0 ≡ true)
unfolding access
access-inside flag outside e = ground arith
access-inside flag (reading b) e = ground arith
access-inside flag (exchanging b) e = ground arith
access-inside flag (pausing b i) e = ground arith
access-inside flag inside e = ground arith

-- Only the thread inside clears the flag.
access_flag : (flag : Bool) (p : Pc) → p ≢ inside → flag ≡ true → (access flag p).0 ≡ true
unfolding access
access_flag flag outside n e = ground arith
access_flag flag (reading b) n e = ground arith
access_flag flag (exchanging b) n e = ground arith
access_flag flag (pausing b i) n e = ground arith
access_flag flag inside n e = absurd (n refl)

move-IsExclusive : (lock : SpinLock) (i : ℕ) → IsExclusive lock → IsExclusive (move lock i)
unfolding move
move-IsExclusive lock i h = record {
  held = λ j e. ground (
    arith,
    access-inside lock.flag (lock.pc i),
    access_flag lock.flag (lock.pc i),
    h.held j,
    h.alone i j,
  );
  alone = λ j k e f.
      ground (arith, access-inside lock.flag (lock.pc i), h.held j, h.held k, h.alone j k);
  bounded = λ j. ground (arith, access-IsBounded lock.flag (lock.pc i) (h.bounded i), h.bounded j);
}

pub run-IsExclusive : (lock : SpinLock) (is : List ℕ) → IsExclusive lock → IsExclusive (run lock is)
unfolding run
run-IsExclusive lock [] h = h
run-IsExclusive lock (i ∷ is) h = run-IsExclusive (move lock i) is (move-IsExclusive lock i h)

new_lock-IsExclusive : IsExclusive new_lock
new_lock-IsExclusive = record { held = λ i e. cc; alone = λ i j e f. cc; bounded = λ i. tt }

-- However the threads are interleaved, no two of them are inside the lock at once, and the flag is
-- set while one is.
pub lock_excludes :
    (is : List ℕ) (i j : ℕ)
    → (run new_lock is).pc i ≡ inside
    → (run new_lock is).pc j ≡ inside
    → (i ≡ j) × ((run new_lock is).flag ≡ true)
lock_excludes is i j e f =
    let h = run-IsExclusive new_lock is new_lock-IsExclusive in (h.alone i j e f, h.held i e)

-- However the threads are interleaved, no thread has a backoff over 16 or pauses more than 256 times
-- between two looks at the flag.
waits-IsBounded : (is : List ℕ) (i : ℕ) → IsBounded ((run new_lock is).pc i)
waits-IsBounded is i = (run-IsExclusive new_lock is new_lock-IsExclusive).bounded i
