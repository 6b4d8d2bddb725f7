-- ===== src/Lock/Progress.antt =====
-- A thread that runs alone gets into a spin lock that is free.
use simple_redis_client.Prelude.{
  ℕ, zero, suc, ◌+◌, ◌-◌, ◌≤◌, ◌≡◌, ◌⊎◌, ◌∙◌, refl, ap, false, ltb, arith, Bool-cases, inl, inr,
  replicate,
}
use simple_redis_client.Lock.{
  Pc, outside, reading, exchanging, pausing, inside, SpinLock, pauses, access, move, run,
}
use simple_redis_client.Lock.Exclusive.{IsBounded}

-- The moves that a thread still needs when the flag is clear.
abbrev pub distance : Pc → ℕ
distance outside = 3
distance (reading b) = 2
distance (exchanging b) = 1
distance (pausing b i) = (pauses b - i) + 3
distance inside = 0

access_nearer :
    (p : Pc) (k : ℕ)
    → distance p ≡ suc k
    → (distance (access false p).1 ≡ k) × ((k ≡ 0) ⊎ ((access false p).0 ≡ false))
unfolding access
access_nearer outside k e = (omega arith, inr refl)
access_nearer (reading b) k e = (omega arith, inr refl)
access_nearer (exchanging b) k e = (omega arith, inl (omega arith))
access_nearer (pausing b i) k e = elim (Bool-cases (ltb i (pauses b))) [
  | inl t ↦ rw t (ground arith, inr refl)
  | inr t ↦ rw t (ground arith, inr refl)
]
access_nearer inside k e = absurd (omega arith)

distance_zero : (p : Pc) → distance p ≡ 0 → p ≡ inside
distance_zero outside e = absurd (omega arith)
distance_zero (reading b) e = absurd (omega arith)
distance_zero (exchanging b) e = absurd (omega arith)
distance_zero (pausing b i) e = absurd (omega arith)
distance_zero inside e = refl

move_lem :
    (lock : SpinLock) (i : ℕ)
    → lock.flag ≡ false
    → ((move lock i).flag ≡ (access false (lock.pc i)).0)
      × ((move lock i).pc i ≡ (access false (lock.pc i)).1)
unfolding move
move_lem lock i e = (rw e refl, rw e (ground arith))

gets_inside :
    (k : ℕ) (lock : SpinLock) (i : ℕ)
    → (k ≡ 0) ⊎ (lock.flag ≡ false)
    → distance (lock.pc i) ≡ k
    → (run lock (replicate k i)).pc i ≡ inside
unfolding run
gets_inside zero lock i f e = distance_zero (lock.pc i) e
gets_inside (suc k) lock i (inl f) e = absurd (omega arith)
gets_inside (suc k) lock i (inr f) e =
    let (near, clear) = access_nearer (lock.pc i) k e in
    let (flag, pc) = move_lem lock i f in
    gets_inside k (move lock i) i (elim clear [ inl z ↦ inl z | inr c ↦ inr (flag ∙ c) ])
      (ap distance pc ∙ near)

-- Where the flag is clear, a thread that moves alone is inside the lock after the moves that it
-- still needs: three from outside, and the pauses that it has left and three while it waits, at
-- most 259.
pub lock_free_enters :
    (lock : SpinLock) (i : ℕ)
    → lock.flag ≡ false
    → IsBounded (lock.pc i)
    → ((run lock (replicate (distance (lock.pc i)) i)).pc i ≡ inside) × (distance (lock.pc i) ≤ 259)
lock_free_enters lock i f b = (gets_inside _ lock i (inr f) refl, distance-le (lock.pc i) b)
  where
    distance-le : (p : Pc) → IsBounded p → distance p ≤ 259
    distance-le outside h = omega arith
    distance-le (reading b') h = omega arith
    distance-le (exchanging b') h = omega arith
    distance-le (pausing b' i') h = omega arith
    distance-le inside h = omega arith
