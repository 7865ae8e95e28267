-- ===== src/BubbleSort/Kept.antt =====
-- bubbleSort.c: the elements afterwards are those before, each as often.
use tcp_and_parallel.Prelude.{
  ℕ, zero, suc, ◌+◌, ◌-◌, ◌<◌, ◌≤◌, ◌≡◌, refl, ap, ◌∙◌, inl, inr, Bool-cases, ltb, ◌==◌, arith,
  if_ind,
}
use tcp_and_parallel.BubbleSort.Sorted.{bubblesort-IsSorted}
use tcp_and_parallel.BubbleSort.{swap, compare_at, inner, outer, bubblesort}

module _ {A : Type 0} (f : A → ℕ) where
  -- The sum of a weight over the first `n` elements.
  unfoldable pub total : (ℕ → A) → ℕ → ℕ
  total a zero = 0
  total a (suc n) = total a n + f (a n)

  total_same : (a b : ℕ → A) (n : ℕ) → ((p : ℕ) → p < n → a p ≡ b p) → total a n ≡ total b n
  unfolding total
  total_same a b zero h = refl
  total_same a b (suc n) h =
      omega (arith, total_same a b n (λ p lt. h p (omega arith)), ap f (h n (omega arith)))

module _ {A : Type 0} (rank f : A → ℕ) where
  total-swap : (a : ℕ → A) (j n : ℕ) → j + 1 < n → total f (swap rank j (j + 1) a) n ≡ total f a n
  unfolding total swap
  total-swap a j zero lt = absurd (omega arith)
  total-swap a j (suc zero) lt = absurd (omega arith)
  total-swap a j (suc (suc n)) lt = elim (Bool-cases (j == n)) [
    | inl here ↦
        (let b = swap rank j (j + 1) a in
          let below : total f b n ≡ total f a n = total_same f b a n (λ p lt'. ground arith) in
          let at : b n ≡ a (suc n) = ground arith in
          let next : b (suc n) ≡ a n = ground arith in omega (arith, below, ap f at, ap f next))
    | inr other ↦
        (let b = swap rank j (j + 1) a in
          let last : b (suc n) ≡ a (suc n) = ground arith in
          omega (arith, total-swap a j (suc n) (ground arith), ap f last))
  ]

  total-compare_at :
      (a : ℕ → A) (j n : ℕ) → j + 1 < n → total f (compare_at rank j a) n ≡ total f a n
  unfolding compare_at
  total-compare_at a j n lt =
      if_ind (λ b. total f b n ≡ total f a n) (ltb (rank (a (j + 1))) (rank (a j)))
        (swap rank j (j + 1) a) a (λ less. total-swap a j n lt) (λ other. refl)

  total-inner : (k j n : ℕ) (a : ℕ → A) → j + k < n → total f (inner rank k j a) n ≡ total f a n
  unfolding inner
  total-inner zero j n a lt = refl
  total-inner (suc k) j n a lt =
      total-inner k (j + 1) n (compare_at rank j a) (omega arith)
      ∙ total-compare_at a j n (omega arith)

  total-outer : (k i n : ℕ) (a : ℕ → A) → i + k < n → total f (outer rank k i n a) n ≡ total f a n
  unfolding outer
  total-outer zero i n a lt = refl
  total-outer (suc k) i n a lt =
      total-outer k (i + 1) n (inner rank (n - (i + 1)) 0 a) (omega arith)
      ∙ total-inner (n - (i + 1)) 0 n a (omega arith)

  pub total-bubblesort : (a : ℕ → A) (n : ℕ) → total f (bubblesort rank a n) n ≡ total f a n
  unfolding bubblesort outer
  total-bubblesort a zero = refl
  total-bubblesort a (suc n) = total-outer (suc n - 1) 0 (suc n) a (omega arith)

  -- After bubblesort the first n elements are in order, and the sum of any weight over them is the same
  -- as before: they are the same elements, each as often.
  pub bubblesort-Sorts :
      (a : ℕ → A) (n p q : ℕ)
      → p ≤ q
      → q < n
      → (rank (bubblesort rank a n p) ≤ rank (bubblesort rank a n q))
        × (total f (bubblesort rank a n) n ≡ total f a n)
  bubblesort-Sorts a n p q pq qn = (bubblesort-IsSorted rank a n p q pq qn, total-bubblesort a n)
