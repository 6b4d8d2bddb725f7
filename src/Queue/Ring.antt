-- ===== src/Queue/Ring.antt =====
-- The slots of the rings in src/utils/thread_pool/queue/LockFreeQueue.h, a `std::array` with indices
-- modulo `Cap`.
use native.Mathlib.Nat.{mod-eq_of_lt, mod_self}
use simple_redis_client.Prelude.{
  ℕ, zero, suc, ◌+◌, ◌-◌, ◌%◌, ◌<◌, ◌≤◌, ◌≡◌, ◌∙◌, refl, sym, ap, false, List, [], ◌∷◌, ◌++◌, ltb,
  ◌==◌, if◌then◌else◌, Bool-cases, inl, inr, arith,
}

module _ {ℓ} {A : Type ℓ} where
  -- `data[i] = x`
  abbrev pub write : (ℕ → A) → ℕ → A → ℕ → A
  write slots i x j = if i == j then x else slots j

  -- The `n` items from slot `i` on, in a ring of `cap` slots.
  unfoldable pub contents : ℕ → (ℕ → A) → ℕ → ℕ → List A
  contents cap slots i zero = []
  contents cap slots i (suc n) = slots i ∷ contents cap slots ((i + 1) % cap) n

-- `(i + n) % cap` for indices below `cap`, in a form without division.
abbrev pub index : ℕ → ℕ → ℕ → ℕ
index cap i n = if ltb (i + n) cap then i + n else i + n - cap

pub mod-next : (cap i : ℕ) → i < cap → (i + 1) % cap ≡ index cap i 1
mod-next cap i h = elim (Bool-cases (ltb (i + 1) cap)) [
  | inl e ↦ rw e (mod-eq_of_lt (ground arith))
  | inr e ↦
      let last : i + 1 ≡ cap = ground arith in
      rw e (ap (λ k. k % cap) last ∙ mod_self cap ∙ omega (arith, last))
]

pub mod_next-lt : (cap i : ℕ) → i < cap → (i + 1) % cap < cap
mod_next-lt cap i h = ground (arith, mod-next cap i h)

pub index-lt : (cap i n : ℕ) → i < cap → n < cap → index cap i n < cap
index-lt cap i n h k = ground arith

-- One slot on, and one step fewer.
pub index-next :
    (cap i m : ℕ) → i < cap → 0 < m → m < cap → index cap ((i + 1) % cap) (m - 1) ≡ index cap i m
index-next cap i m h k l = ground (arith, mod-next cap i h)

index-ne : (cap i m : ℕ) → i < cap → 0 < m → m < cap → (index cap i m == i) ≡ false
index-ne cap i m h k l = ground arith

-- The ring has room for one more item where the next head is not the tail.
pub room_of_ne :
    (cap head tail n : ℕ)
    → n < cap
    → tail < cap
    → head ≡ index cap tail n
    → ((head + 1) % cap == tail) ≡ false
    → n + 1 < cap
room_of_ne cap head tail n f t e k = ground (arith, mod-next cap head)

pub head_suc :
    (cap head tail n : ℕ)
    → tail < cap
    → suc n < cap
    → head ≡ index cap tail n
    → (head + 1) % cap ≡ index cap tail (suc n)
head_suc cap head tail n t k e = ground (arith, mod-next cap head)

pub head_ne_tail :
    (cap head tail n : ℕ)
    → tail < cap
    → 0 < n
    → n < cap
    → head ≡ index cap tail n
    → (head == tail) ≡ false
head_ne_tail cap head tail n t k f e = ground arith

pub item_of_ne :
    (cap head tail n : ℕ) → tail < cap → head ≡ index cap tail n → (tail == head) ≡ false → 0 < n
item_of_ne cap head tail n t e k = ground arith

-- The ring with one item fewer.
pub tail_suc :
    (cap head tail n : ℕ)
    → tail < cap
    → suc n < cap
    → head ≡ index cap tail (suc n)
    → head ≡ index cap ((tail + 1) % cap) n
tail_suc cap head tail n t k e = ground (arith, mod-next cap tail)

module _ {ℓ} {A : Type ℓ} (cap : ℕ) (slots : ℕ → A) where
  -- A write at the slot behind the items does not change them.
  pub contents-write :
      (x : A) (i n m : ℕ)
      → i < cap
      → n ≤ m
      → m < cap
      → contents cap (write slots (index cap i m) x) i n ≡ contents cap slots i n
  unfolding contents
  contents-write x i zero m h k l = refl
  contents-write x i (suc n) m h k l = rw (index-ne cap i m h (omega arith) l) (
      ap (◌∷◌ (slots i)) (
        ap (λ j. contents cap (write slots j x) ((i + 1) % cap) n)
          (sym (index-next cap i m h (omega arith) l))
        ∙ contents-write x ((i + 1) % cap) n (m - 1) (mod_next-lt cap i h) (omega arith)
            (omega arith)))

  pub contents-snoc :
      (i n : ℕ)
      → i < cap
      → n < cap
      → contents cap slots i (suc n) ≡ contents cap slots i n ++ (slots (index cap i n) ∷ [])
  unfolding contents
  contents-snoc i zero h k = ap (λ j. slots j ∷ []) (ground arith)
  contents-snoc i (suc n) h k = ap (◌∷◌ (slots i)) (
      contents-snoc ((i + 1) % cap) n (mod_next-lt cap i h) (omega arith)
      ∙ ap (λ j. contents cap slots ((i + 1) % cap) n ++ (slots j ∷ []))
          (ap (index cap ((i + 1) % cap)) n_less ∙ index-next cap i (suc n) h (omega arith) k))
    where
      n_less : n ≡ suc n - 1
      n_less = omega arith
