-- ===== src/BubbleSort.antt =====
-- bubbleSort.c. An array is a function of the index. `rank` orders its elements: for an `int` of 32
-- bits that is the value plus 2 ^ 31.
pub mod Kept
pub mod Sorted
use tcp_and_parallel.Prelude.{ℕ, zero, suc, ◌+◌, ◌-◌, ltb, if◌then◌else◌, update}

module _ {A : Type 0} (rank : A → ℕ) where
  pub swap : ℕ → ℕ → (ℕ → A) → ℕ → A
  swap x y list = let temp = list x in let list' = update list x (list y) in update list' y temp

  pub compare_at : ℕ → (ℕ → A) → ℕ → A
  unfolding swap
  compare_at j list =
      if ltb (rank (list (j + 1))) (rank (list j)) then swap j (j + 1) list else list

  -- The loop over `j`, with `k` rounds left.
  pub inner : (k j : ℕ) → (ℕ → A) → ℕ → A
  unfolding compare_at
  inner zero j list = list
  inner (suc k) j list = inner k (j + 1) (compare_at j list)

  -- The loop over `i`.
  pub outer : (k i n : ℕ) → (ℕ → A) → ℕ → A
  unfolding inner
  outer zero i n list = list
  outer (suc k) i n list = outer k (i + 1) n (inner (n - (i + 1)) 0 list)

  unfoldable pub bubblesort : (ℕ → A) → ℕ → ℕ → A
  unfolding outer
  bubblesort list n = outer (n - 1) 0 n list
