-- ===== src/Tests/BestFit.antt =====
-- Runs of minix/3.1.7-bestfit-alloc.c.
use tcp_and_parallel.Prelude.{
  ℕ, ◌≡◌, refl, true, false, none, some, [], ◌∷◌, ◌==◌, if◌then◌else◌, add32, arith,
}
use tcp_and_parallel.Alloc.Table.{Table, Config, ok}
use tcp_and_parallel.Alloc.Cells.{Cell}
use tcp_and_parallel.Alloc.BestFit.{no_remainder, best_loop, alloc_mem}
use tcp_and_parallel.Alloc.BestFit.Picked.{Fitted, alloc_mem-Fitted}

abbrev config : Config
config = record { nr_holes = 3; click_size = 4096; no_mem = 4294967295; memset_ok = λ a n. true }

abbrev table : Table
table = record {
  hole = λ i.
      if i == 0
      then record { h_next = some 1; h_base = 10; h_len = 9 }
      else if i == 1
      then record { h_next = some 2; h_base = 30; h_len = 5 }
      else record { h_next = none; h_base = 50; h_len = 7 };
  hole_head = some 0;
  free_slots = none;
}

abbrev cell : ℕ → ℕ → ℕ → Cell
cell i a n = record { slot = i; base = a; len = n }

-- The hole of 7 leaves 1, and not the first that is big enough.
smallest : best_loop 4 6 no_remainder none table.hole_head table ≡ ok (1, some 2) table
unfolding best_loop
smallest = refl

none_fits : best_loop 4 10 no_remainder none table.hole_head table ≡ ok (no_remainder, none) table
unfolding best_loop
none_fits = refl

alloc_mem-Fitted_example :
    Fitted
      (add32 6 0)
      table
      (cell 0 10 9 ∷ cell 1 30 5 ∷ cell 2 50 7 ∷ [])
      (alloc_mem config 6 false table)
alloc_mem-Fitted_example =
    alloc_mem-Fitted config 6 false table (cell 0 10 9 ∷ cell 1 30 5 ∷ cell 2 50 7 ∷ [])
      (refl, refl, refl, (refl, refl, refl, (refl, refl, refl, refl)))
      (ground arith, (ground arith, (ground arith, tt))) (ground arith)
