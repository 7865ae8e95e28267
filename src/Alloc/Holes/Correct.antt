-- ===== src/Alloc/Holes/Correct.antt =====
-- minix/alloc.c: what `alloc_mem` and `free_mem` do to the free addresses.
use tcp_and_parallel.Prelude.{
  ℕ, zero, suc, ◌+◌, ◌≤◌, ◌<◌, ◌≡◌, refl, ◌∙◌, Bool, true, false, not, ◌&&◌, ◌||◌, none, some, leb,
  inl, inr, [], ◌∷◌, arith, ◌==◌, u32_mod, add32, add32_of_lt, Bool-cases, length, ==_self,
}
use tcp_and_parallel.Alloc.Table.{Ptr, Table, Config, ok}
use tcp_and_parallel.Alloc.Chain.{Chain}
use tcp_and_parallel.Alloc.Cells.{Cell, Cells, length-Once}
use tcp_and_parallel.Alloc.Rewrites.{Returns, Returns-bind, Returns-mono, IsTable}
use tcp_and_parallel.Alloc.Spec.{Fits, alloc_cells, alloc_base, free_cells}
use tcp_and_parallel.Alloc.Order.{
  Ordered, Clear, alloc-Ordered, alloc-Fits, free-Ordered, free-Fits,
}
use tcp_and_parallel.Alloc.Regions.{
  within, free_at, has_room, free_at-free_cells, free_at-block, free_at-alloc_cells,
  Clear-of_free_at, length-free_cells, length-alloc_cells,
}
use tcp_and_parallel.Alloc.Holes.{free_mem, alloc_mem, alloc_loop, align}
use tcp_and_parallel.Alloc.Holes.Bite.{AlwaysOk, alloc_loop-first_fit}
use tcp_and_parallel.Alloc.Holes.Insert.{free_mem-insert}

-- The table stands for the holes: its two lists share the slots out, and the holes are in order,
-- apart from one another and within the address range.
pub record Stands (g : Config) (s : Table) (cs : Cells) : Type 0 where
  pub slots : Cells
  pub table : IsTable g.nr_holes s cs slots
  pub ordered : Ordered cs
  pub fits : Fits cs

-- The outcome of a command that frees the `n` addresses from `b`.
pub record Frees (g : Config) (cs : Cells) (b n : ℕ) (t : Table) : Type 0 where
  pub holes : Cells
  pub stands : Stands g t holes
  pub free : (a : ℕ) → free_at holes a ≡ (within b n a || free_at cs a)
  pub grows : length holes ≤ length cs + 1

-- The outcome of a command that takes the `n` addresses from `b`.
pub record Takes (g : Config) (cs : Cells) (b n : ℕ) (t : Table) : Type 0 where
  pub holes : Cells
  pub stands : Stands g t holes
  pub was_free : (a : ℕ) → within b n a ≡ true → free_at cs a ≡ true
  pub free : (a : ℕ) → free_at holes a ≡ (free_at cs a && not (within b n a))

insert-Frees :
    (g : Config) (s t : Table) (cs ys : Cells) (new : Cell)
    → Stands g s cs
    → 0 < new.len
    → new.base + new.len < u32_mod
    → Clear new cs
    → IsTable g.nr_holes t (free_cells new cs) ys
    → Frees g cs new.base new.len t
insert-Frees g s t cs ys new h pos end clear i = record {
  holes = free_cells new cs;
  stands = record {
    slots = ys;
    table = i;
    ordered = free-Ordered new cs pos clear h.ordered;
    fits = free-Fits new cs end h.fits;
  };
  free = free_at-free_cells new cs;
  grows = length-free_cells new cs;
}

-- `free_mem` of a block that is not empty, ends within the address range and holds no free address
-- returns while fewer holes than slots exist: its addresses are free afterwards, all others are as
-- they were, and the table is well formed.
pub free_mem-Frees :
    (g : Config) (s : Table) (cs : Cells) (base clicks : ℕ)
    → Stands g s cs
    → length cs < g.nr_holes
    → 0 < clicks
    → base + clicks < u32_mod
    → ((a : ℕ) → within base clicks a ≡ true → free_at cs a ≡ false)
    → Returns (λ _ t. Frees g cs base clicks t) (free_mem g base clicks s)
free_mem-Frees g s cs base clicks h room pos end out =
    go h.slots h.table (length-Once g.nr_holes cs h.slots h.table.once)
  where
    go :
        (fs : Cells)
        → IsTable g.nr_holes s cs fs
        → length cs + length fs ≡ g.nr_holes
        → Returns (λ _ t. Frees g cs base clicks t) (free_mem g base clicks s)
    go [] i n = absurd (omega arith)
    go (f ∷ fs) i n =
        let new : Cell = record { slot = f.slot; base = base; len = clicks } in
        Returns-mono _ _ (free_mem g base clicks s)
          (free_mem-insert g s cs fs f base clicks i h.fits pos end)
          (λ _ t r.
            insert-Frees g s t cs r.0 new h pos end (Clear-of_free_at new cs pos h.ordered out) r.1)

pub walk-Takes :
    (g : Config) (s t : Table) (cs ys : Cells) (k : ℕ)
    → Stands g s cs
    → has_room k cs ≡ true
    → IsTable g.nr_holes t (alloc_cells k cs) ys
    → Takes g cs (alloc_base g.no_mem k cs) k t
walk-Takes g s t cs ys k h room i = record {
  holes = alloc_cells k cs;
  stands = record {
    slots = ys;
    table = i;
    ordered = alloc-Ordered k cs h.ordered;
    fits = alloc-Fits k cs h.fits;
  };
  was_free = λ a. free_at-block g.no_mem k cs a room;
  free = λ a. free_at-alloc_cells g.no_mem k cs a room h.ordered;
}

pub length-walk-Takes :
    (g : Config) (s t : Table) (cs ys : Cells) (k : ℕ) (h : Stands g s cs)
    (room : has_room k cs ≡ true) (i : IsTable g.nr_holes t (alloc_cells k cs) ys)
    → length (walk-Takes g s t cs ys k h room i).holes ≤ length cs
unfolding walk-Takes
length-walk-Takes g s t cs ys k h room i = length-alloc_cells k cs

pub walk :
    (g : Config) (s : Table) (cs : Cells) (k : ℕ) (clear : Bool)
    → AlwaysOk g
    → Stands g s cs
    → Returns
        (λ v t.
          (v ≡ alloc_base g.no_mem k cs)
          × (ys : Cells) × IsTable g.nr_holes t (alloc_cells k cs) ys)
        (alloc_loop (g.nr_holes + 1) g k clear none s.hole_head s)
walk g s cs k clear good h =
    alloc_loop-first_fit g good k clear (g.nr_holes + 1) g.nr_holes s s.hole_head cs h.slots refl
      h.table h.fits (omega (arith, length-Once g.nr_holes cs h.slots h.table.once))

-- When some hole is big enough and `sys_memset` does not fail, `alloc_mem` without PAF_ALIGN64K
-- returns the start of the first hole that is big enough. The addresses of the block were free and
-- are not afterwards; all others are as they were, and the table is well formed.
pub alloc_mem-Takes :
    (g : Config) (s : Table) (cs : Cells) (clicks : ℕ) (clear : Bool)
    → AlwaysOk g
    → Stands g s cs
    → clicks < u32_mod
    → has_room clicks cs ≡ true
    → Returns
        (λ v t. (v ≡ alloc_base g.no_mem clicks cs) × Takes g cs v clicks t)
        (alloc_mem g clicks false clear s)
unfolding alloc_mem align
alloc_mem-Takes g s cs clicks clear good h small room =
    let exact : add32 clicks 0 ≡ clicks = add32_of_lt clicks 0 (omega arith) ∙ omega arith in
    rw exact (
      Returns-bind _ _ (alloc_loop (g.nr_holes + 1) g clicks clear none s.hole_head s) _
        (walk g s cs clicks clear good h)
        (λ v t w. elim (Bool-cases (v == g.no_mem)) [
          | inl e ↦ rw e (w.0, rw w.0 (walk-Takes g s t cs w.1 clicks h room w.2))
          | inr e ↦ rw e (w.0, rw w.0 (walk-Takes g s t cs w.1 clicks h room w.2))
        ]))

-- The walk over holes that are all too small.
alloc_loop-no_room :
    (g : Config) (k clicks : ℕ) (clear : Bool) (s : Table) (q p : Ptr) (cs : Cells)
    → Chain s.hole p cs
    → has_room clicks cs ≡ false
    → length cs < k
    → alloc_loop k g clicks clear q p s ≡ ok g.no_mem s
unfolding alloc_loop
alloc_loop-no_room g zero clicks clear s q p cs chain none_fits enough = absurd (omega arith)
alloc_loop-no_room g (suc k) clicks clear s q p [] chain none_fits enough = rw chain refl
alloc_loop-no_room g (suc k) clicks clear s q p (c ∷ cs) (at, base, len, rest) none_fits enough =
    let small : leb clicks c.len ≡ false = ground arith in
    rw (at, len, small)
      (alloc_loop-no_room g k clicks clear s (some c.slot) (s.hole c.slot).h_next cs rest
        (ground arith) (omega arith))

-- On a well-formed table where no hole is as long as `clicks`, which is below 2 ^ 32, alloc_mem without
-- PAF_ALIGN64K returns NO_MEM, whether or not `sys_memset` would fail, and the holes stay as they are.
pub alloc_mem-no_room :
    (g : Config) (s : Table) (cs : Cells) (clicks : ℕ) (clear : Bool)
    → Stands g s cs
    → clicks < u32_mod
    → has_room clicks cs ≡ false
    → Returns (λ v t. (v ≡ g.no_mem) × Stands g t cs) (alloc_mem g clicks false clear s)
unfolding alloc_mem
alloc_mem-no_room g s cs clicks clear h small room =
    let exact : add32 clicks 0 ≡ clicks = add32_of_lt clicks 0 (omega arith) ∙ omega arith in
    let short = length-Once g.nr_holes cs h.slots h.table.once in
    rw
      (
        exact,
        alloc_loop-no_room g (g.nr_holes + 1) clicks clear s none s.hole_head cs h.table.holes room
            (omega arith),
        ==_self g.no_mem,
      )
      (refl, h)
