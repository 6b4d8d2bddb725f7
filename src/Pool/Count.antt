-- ===== src/Pool/Count.antt =====
-- How often a task stands in a list, and how many of the threads run it.
use simple_redis_client.Prelude.{
  ℕ, zero, suc, ◌+◌, ◌≤◌, ◌<◌, ◌≡◌, refl, List, [], ◌∷◌, ◌++◌, ◌==◌, ltb, if◌then◌else◌, arith,
  Bool-cases, inl, inr,
}
use simple_redis_client.Pool.{Worker, popping, running, finished, update}

unfoldable pub count : ℕ → List ℕ → ℕ
count t [] = 0
count t (x ∷ xs) = let rest = count t xs in if x == t then suc rest else rest

abbrev pub runs : ℕ → Worker → ℕ
runs t (running x) = if x == t then 1 else 0
runs t _ = 0

-- The first `n` threads that run `t`.
pub running_count : ℕ → ℕ → (ℕ → Worker) → ℕ
running_count t zero f = 0
running_count t (suc n) f = running_count t n f + runs t (f n)

pub count-snoc :
    (t : ℕ) (xs : List ℕ) (x : ℕ) → count t (xs ++ (x ∷ [])) ≡ count t xs + runs t (running x)
unfolding count
count-snoc t [] x = ground arith
count-snoc t (y ∷ xs) x = ground (arith, count-snoc t xs x)

pub count-append : (t : ℕ) (xs ys : List ℕ) → count t (xs ++ ys) ≡ count t xs + count t ys
unfolding count
count-append t [] ys = omega arith
count-append t (x ∷ xs) ys = ground (arith, count-append t xs ys)

running_count-update_of_le :
    (t n : ℕ) (f : ℕ → Worker) (i : ℕ) (w : Worker)
    → n ≤ i
    → running_count t n (update f i w) ≡ running_count t n f
unfolding running_count
running_count-update_of_le t zero f i w h = refl
running_count-update_of_le t (suc n) f i w h = ground (arith, running_count-update_of_le t n f i w)

pub running_count-update :
    (t n : ℕ) (f : ℕ → Worker) (i : ℕ) (w : Worker)
    → i < n
    → running_count t n (update f i w) + runs t (f i) ≡ running_count t n f + runs t w
unfolding running_count
running_count-update t zero f i w h = absurd (omega arith)
running_count-update t (suc n) f i w h = elim (Bool-cases (ltb i n)) [
  | inl e ↦ ground (arith, running_count-update t n f i w)
  | inr e ↦ ground (arith, running_count-update_of_le t n f i w)
]

pub running_count_finished :
    (t n : ℕ) (f : ℕ → Worker) → ((i : ℕ) → i < n → f i ≡ finished) → running_count t n f ≡ 0
unfolding running_count
running_count_finished t zero f h = refl
running_count_finished t (suc n) f h =
    rw (h n (omega arith)) (omega (arith, running_count_finished t n f (λ i k. h i (omega arith))))

pub running_count_popping : (t n : ℕ) → running_count t n (λ i. popping) ≡ 0
unfolding running_count
running_count_popping t zero = refl
running_count_popping t (suc n) = omega (arith, running_count_popping t n)
