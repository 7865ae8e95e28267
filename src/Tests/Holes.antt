-- ===== src/Tests/Holes.antt =====
-- minix/alloc.c on a table of four slots with two holes.
use tcp_and_parallel.Prelude.{
  ℕ, ◌≡◌, refl, true, false, none, some, [], ◌∷◌, arith, ◌==◌, if◌then◌else◌, List,
}
use tcp_and_parallel.Alloc.Table.{Hole, Table, Config}
use tcp_and_parallel.Alloc.Cells.{Cell, Cells}
use tcp_and_parallel.Alloc.Rewrites.{Returns}
use tcp_and_parallel.Alloc.Regions.{free_at}
use tcp_and_parallel.Alloc.Holes.{Memory, Extent, alloc_mem, free_mem, mem_init}
use tcp_and_parallel.Alloc.Holes.Bite.{AlwaysOk}
use tcp_and_parallel.Alloc.Holes.Correct.{
  Stands, Frees, Takes, free_mem-Frees, alloc_mem-Takes, alloc_mem-no_room,
}
use tcp_and_parallel.Alloc.Holes.Align.{Aligned, alloc_mem-Aligned}
use tcp_and_parallel.Alloc.Holes.Init.{chunk_at, mem_init-Stands, mem_init-mem_low}

abbrev pub config : Config
config = record { nr_holes = 4; click_size = 0x4000; no_mem = 0; memset_ok = λ a n. true }

abbrev cell : ℕ → ℕ → ℕ → Cell
cell i b n = record { slot = i; base = b; len = n }

-- Holes of 5 clicks at 10 and of 8 clicks at 20, in slots 0 and 1.
abbrev two_holes : Cells
two_holes = cell 0 10 5 ∷ cell 1 20 8 ∷ []

abbrev pub slot_at : ℕ → Hole
slot_at i =
    if i == 0
    then record { h_next = some 1; h_base = 10; h_len = 5 }
    else if i == 1
    then record { h_next = none; h_base = 20; h_len = 8 }
    else if i == 2
    then record { h_next = some 3; h_base = 0; h_len = 0 }
    else record { h_next = none; h_base = 0; h_len = 0 }

abbrev pub table : Table
table = record { hole = slot_at; hole_head = some 0; free_slots = some 2 }

table-Stands : Stands config table two_holes
table-Stands = record {
  slots = cell 2 0 0 ∷ cell 3 0 0 ∷ [];
  table = record {
    holes = (refl, refl, refl, (refl, refl, refl, refl));
    free = (refl, refl, refl, (refl, refl, refl, refl));
    once = λ a. ground arith;
  };
  ordered = omega arith;
  fits = omega arith;
}

always : AlwaysOk config
always a n = refl

free_mem-Frees_example : Returns (λ _ t. Frees config two_holes 15 5 t) (free_mem config 15 5 table)
free_mem-Frees_example =
    free_mem-Frees config table two_holes 15 5 table-Stands (omega arith) (omega arith)
      (omega arith) (λ a w. ground arith)

alloc_mem-Takes_example :
    Returns (λ v t. (v ≡ 20) × Takes config two_holes v 6 t) (alloc_mem config 6 false true table)
alloc_mem-Takes_example =
    alloc_mem-Takes config table two_holes 6 true always table-Stands (omega arith) refl

alloc_mem-no_room_example :
    Returns (λ v t. (v ≡ 0) × Stands config t two_holes) (alloc_mem config 9 false true table)
alloc_mem-no_room_example =
    alloc_mem-no_room config table two_holes 9 true table-Stands (omega arith) refl

-- With clicks of 16 KB the boundary is every 4 clicks.
alloc_mem-Aligned_example :
    Returns (Aligned config two_holes 4 10 5) (alloc_mem config 1 true false table)
alloc_mem-Aligned_example =
    alloc_mem-Aligned config table two_holes 1 4 false always table-Stands refl (omega arith)
      (omega arith) refl (λ e. omega arith) (omega arith)

abbrev chunks : List Memory
chunks =
    record { base = 10; size = 5 }
    ∷ record { base = 3; size = 0 }
    ∷ record { base = 20; size = 8 }
    ∷ []

abbrev nothing : Extent
nothing = record { mem_low = 0; mem_high = 0; total_pages = 0 }

mem_init-Stands_example :
    Returns
      (λ _ t. (cs : Cells) × Stands config t cs × ((a : ℕ) → free_at cs a ≡ chunk_at chunks a))
      (mem_init config chunks nothing)
mem_init-Stands_example = mem_init-Stands config chunks nothing (omega arith) (omega arith) (
  omega arith,
  (λ a w. ground arith),
  (omega arith, (λ a w. ground arith), (omega arith, (λ a w. refl), tt)),
)

mem_init-mem_low_example : Returns (λ y _. y.mem_low ≡ 0) (mem_init config chunks nothing)
mem_init-mem_low_example =
    mem_init-mem_low config chunks nothing (omega arith) (omega arith)
      (
        omega arith,
        (λ a w. ground arith),
        (omega arith, (λ a w. ground arith), (omega arith, (λ a w. refl), tt)),
      )
      refl
