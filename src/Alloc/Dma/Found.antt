-- ===== src/Alloc/Dma/Found.antt =====
-- The first index that passes a test.
use tcp_and_parallel.Prelude.{
  ℕ, zero, suc, ◌+◌, ◌≤◌, ◌<◌, ◌≡◌, Bool, true, false, Option, none, some, arith, ◌==◌, if_ind, inl,
  inr, Bool-cases,
}
use tcp_and_parallel.Alloc.Dma.{find_first}

-- What `find_first` gives: the first index that passes, or none where none passes.
abbrev pub First : (ℕ → Bool) → ℕ → ℕ → Option ℕ → Type 0
First p k i none = (j : ℕ) → i ≤ j → j < i + k → p j ≡ false
First p k i (some n) =
    (p n ≡ true) × (i ≤ n) × (n < i + k) × ((j : ℕ) → i ≤ j → j < n → p j ≡ false)

later :
    (p : ℕ → Bool) (k i : ℕ) (o : Option ℕ)
    → p i ≡ false
    → First p k (i + 1) o
    → First p (suc k) i o
later p k i none miss h = λ j le lt. elim (Bool-cases (i == j)) [
  | inl here ↦ ground arith
  | inr other ↦ h j (ground arith) (omega arith)
]
later p k i (some n) miss (hit, le, lt, before) = (
  hit,
  omega arith,
  omega arith,
  λ j from to. elim (Bool-cases (i == j)) [
    | inl here ↦ ground arith
    | inr other ↦ before j (ground arith) to
  ],
)

pub find_first-First : (p : ℕ → Bool) (k i : ℕ) → First p k i (find_first p k i)
find_first-First p zero i = λ j le lt. let no : ⊥ = omega arith in elim no [ ]
find_first-First p (suc k) i =
    if_ind (First p (suc k) i) (p i) _ _
      (λ hit. (hit, omega arith, omega arith, λ j le lt. let no : ⊥ = omega arith in elim no [ ]))
      (λ miss. later p k i (find_first p k (i + 1)) miss (find_first-First p k (i + 1)))
