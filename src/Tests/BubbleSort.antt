-- ===== src/Tests/BubbleSort.antt =====
-- Runs of bubbleSort.c.
use tcp_and_parallel.Prelude.{ℕ, zero, suc, ◌≤◌, ◌≡◌, [], ◌∷◌, refl, arith}
use tcp_and_parallel.BubbleSort.{bubblesort}
use tcp_and_parallel.BubbleSort.Kept.{total, bubblesort-Sorts}

value : ℕ → ℕ
value x = x

-- 5, 9, 5, 2, and 0 beyond.
numbers : ℕ → ℕ
numbers zero = 5
numbers (suc zero) = 9
numbers (suc (suc zero)) = 5
numbers (suc (suc (suc zero))) = 2
numbers (suc (suc (suc (suc i)))) = 0

sorted_numbers :
    (bubblesort value numbers 4 0
      ∷ bubblesort value numbers 4 1
      ∷ bubblesort value numbers 4 2
      ∷ bubblesort value numbers 4 3
      ∷ [])
    ≡ 2 ∷ 5 ∷ 5 ∷ 9 ∷ []
unfolding bubblesort numbers value
sorted_numbers = refl

bubblesort-Sorts_example :
    (value (bubblesort value numbers 4 1) ≤ value (bubblesort value numbers 4 3))
    × (total value (bubblesort value numbers 4) 4 ≡ total value numbers 4)
bubblesort-Sorts_example = bubblesort-Sorts value value numbers 4 1 3 (omega arith) (omega arith)
