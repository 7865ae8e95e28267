-- ===== src/Alloc/Spec.antt =====
-- What the operations of minix/alloc.c mean for the list of holes.
use tcp_and_parallel.Prelude.{
  ℕ, ◌≡◌, arith, ◌+◌, ◌-◌, ◌<◌, Bool, true, [], ◌∷◌, leb, ltb, ◌==◌, if◌then◌else◌, u32_mod,
}
use tcp_and_parallel.Alloc.Cells.{Cell, Cells}

abbrev pub touches : Cell → Cell → Bool
touches c d = c.base + c.len == d.base

abbrev pub grow : Cell → Cell → Cell
grow c d = record c { len = c.len + d.len }

-- Two neighbours become one where they touch.
abbrev pub join_one : Cell → Cells → Cells
join_one c [] = c ∷ []
join_one c (d ∷ ds) = if touches c d then grow c d ∷ ds else c ∷ d ∷ ds

-- So for the first three.
abbrev pub join_two : Cell → Cells → Cells
join_two c [] = c ∷ []
join_two c (d ∷ ds) = if touches c d then join_one (grow c d) ds else c ∷ join_one d ds

-- Each hole ends within the address range.
abbrev pub Fits : Cells → Type 0
Fits [] = Unit
Fits (c ∷ cs) = (c.base + c.len < u32_mod) × Fits cs

pub grow-Fits :
    (c d : Cell) (ds : Cells) → touches c d ≡ true → Fits (c ∷ d ∷ ds) → Fits (grow c d ∷ ds)
grow-Fits c d ds e fit = (ground arith, fit.1.1)

-- First fit: the piece comes off the low end of the first hole that is big enough, and a hole that
-- is used up goes.
abbrev pub shrink : ℕ → Cell → Cell
shrink clicks c = record c { base = c.base + clicks; len = c.len - clicks }

abbrev pub bite_cells : ℕ → Cell → Cells → Cells
bite_cells clicks c cs = if c.len == clicks then cs else shrink clicks c ∷ cs

abbrev pub alloc_cells : ℕ → Cells → Cells
alloc_cells clicks [] = []
alloc_cells clicks (c ∷ cs) =
    if leb clicks c.len then bite_cells clicks c cs else c ∷ alloc_cells clicks cs

abbrev pub alloc_base : ℕ → ℕ → Cells → ℕ
alloc_base no_mem clicks [] = no_mem
alloc_base no_mem clicks (c ∷ cs) = if leb clicks c.len then c.base else alloc_base no_mem clicks cs

-- A freed block goes in front of the first hole that does not start below it, and is joined with
-- the holes that it touches.
abbrev pub insert_behind : Cell → Cell → Cells → Cells
insert_behind new c [] = join_two c (new ∷ [])
insert_behind new c (d ∷ ds) =
    if ltb d.base new.base then c ∷ insert_behind new d ds else join_two c (new ∷ d ∷ ds)

abbrev pub free_cells : Cell → Cells → Cells
free_cells new [] = new ∷ []
free_cells new (c ∷ cs) =
    if leb new.base c.base then join_two new (c ∷ cs) else insert_behind new c cs
