-- ===== src/Alloc/Order.antt =====
-- The invariant of the list of holes in minix/alloc.c, as `holes_sanity_f` checks it: in order of
-- address, no two overlapping or touching; and that taking and freeing a block keep it.
use tcp_and_parallel.Prelude.{
  ℕ, ◌+◌, ◌-◌, ◌≤◌, ◌<◌, ◌≡◌, ◌⊎◌, inl, inr, [], ◌∷◌, arith, ◌==◌, leb, ltb, u32_mod, Bool-cases,
}
use tcp_and_parallel.Alloc.Cells.{Cell, Cells}
use tcp_and_parallel.Alloc.Spec.{
  touches, grow, join_one, join_two, Fits, grow-Fits, bite_cells, alloc_cells, insert_behind,
  free_cells,
}

-- The list starts above `n`, or at `n`.
abbrev pub After : ℕ → Cells → Type 0
After n [] = Unit
After n (c ∷ cs) = n < c.base

abbrev pub From : ℕ → Cells → Type 0
From n [] = Unit
From n (c ∷ cs) = n ≤ c.base

abbrev pub Ordered : Cells → Type 0
Ordered [] = Unit
Ordered (c ∷ cs) = (0 < c.len) × After (c.base + c.len) cs × Ordered cs

-- The block and each hole have no address in common.
abbrev pub Clear : Cell → Cells → Type 0
Clear new [] = Unit
Clear new (c ∷ cs) = ((c.base + c.len ≤ new.base) ⊎ (new.base + new.len ≤ c.base)) × Clear new cs

From-of_After : (n : ℕ) (cs : Cells) → After n cs → From n cs
From-of_After n [] h = tt
From-of_After n (c ∷ cs) h = omega arith

After-bite :
    (n k : ℕ) (c : Cell) (cs : Cells) → n < c.base → Ordered (c ∷ cs) → After n (bite_cells k c cs)
After-bite n k c [] h o = ground arith
After-bite n k c (d ∷ cs) h o = ground arith

bite-Ordered :
    (k : ℕ) (c : Cell) (cs : Cells) → k ≤ c.len → Ordered (c ∷ cs) → Ordered (bite_cells k c cs)
bite-Ordered k c cs h o = elim (Bool-cases (c.len == k)) [
  | inl e ↦ rw e o.2
  | inr e ↦ rw e (
    ground arith,
    (let same : c.base + k + (c.len - k) ≡ c.base + c.len = omega arith in rw same o.1),
    o.2,
  )
]

After-alloc : (n k : ℕ) (cs : Cells) → After n cs → Ordered cs → After n (alloc_cells k cs)
After-alloc n k [] h o = tt
After-alloc n k (c ∷ cs) h o = elim (Bool-cases (leb k c.len)) [
  | inl e ↦ rw e (After-bite n k c cs h o)
  | inr e ↦ rw e h
]

pub alloc-Ordered : (k : ℕ) (cs : Cells) → Ordered cs → Ordered (alloc_cells k cs)
alloc-Ordered k [] o = tt
alloc-Ordered k (c ∷ cs) o = elim (Bool-cases (leb k c.len)) [
  | inl e ↦ rw e (bite-Ordered k c cs (ground arith) o)
  | inr e ↦ rw e (o.0, After-alloc (c.base + c.len) k cs o.1 o.2, alloc-Ordered k cs o.2)
]

pub alloc-Fits : (k : ℕ) (cs : Cells) → Fits cs → Fits (alloc_cells k cs)
alloc-Fits k [] f = tt
alloc-Fits k (c ∷ cs) f = ground (arith, alloc-Fits k cs f.1)

join_one-Ordered :
    (c : Cell) (cs : Cells)
    → 0 < c.len
    → From (c.base + c.len) cs
    → Ordered cs
    → Ordered (join_one c cs)
join_one-Ordered c [] pos h o = (pos, tt, tt)
join_one-Ordered c (d ∷ ds) pos h o = elim (Bool-cases (touches c d)) [
  | inl e ↦ rw e (
    omega arith,
    (let same : c.base + (c.len + d.len) ≡ d.base + d.len = ground arith in rw same o.1),
    o.2,
  )
  | inr e ↦ rw e (pos, ground arith, o)
]

After-join_one : (n : ℕ) (c : Cell) (cs : Cells) → n < c.base → After n (join_one c cs)
After-join_one n c [] h = h
After-join_one n c (d ∷ ds) h = ground arith

After-join_two : (n : ℕ) (c : Cell) (cs : Cells) → n < c.base → After n (join_two c cs)
After-join_two n c [] h = h
After-join_two n c (d ∷ ds) h = elim (Bool-cases (touches c d)) [
  | inl e ↦ rw e (After-join_one n (grow c d) ds h)
  | inr e ↦ rw e h
]

join_two-Ordered :
    (c d : Cell) (ds : Cells)
    → 0 < c.len
    → c.base + c.len ≤ d.base
    → 0 < d.len
    → From (d.base + d.len) ds
    → Ordered ds
    → Ordered (join_two c (d ∷ ds))
join_two-Ordered c d ds pc h pd k o = elim (Bool-cases (touches c d)) [
  | inl e ↦ rw e (
      join_one-Ordered (grow c d) ds (omega arith)
        (let same : c.base + (c.len + d.len) ≡ d.base + d.len = ground arith in rw same k) o)
  | inr e ↦
      rw e (pc, After-join_one (c.base + c.len) d ds (ground arith), join_one-Ordered d ds pd k o)
]

After-insert_behind :
    (n : ℕ) (new c : Cell) (cs : Cells) → n < c.base → After n (insert_behind new c cs)
After-insert_behind n new c [] h = After-join_two n c (new ∷ []) h
After-insert_behind n new c (d ∷ ds) h = elim (Bool-cases (ltb d.base new.base)) [
  | inl e ↦ rw e h
  | inr e ↦ rw e (After-join_two n c (new ∷ d ∷ ds) h)
]

insert_behind-Ordered :
    (new c : Cell) (cs : Cells)
    → 0 < new.len
    → c.base < new.base
    → Clear new (c ∷ cs)
    → Ordered (c ∷ cs)
    → Ordered (insert_behind new c cs)
insert_behind-Ordered new c [] pos lt clear o =
    join_two-Ordered c new [] o.0 (ground arith) pos tt tt
insert_behind-Ordered new c (d ∷ ds) pos lt clear o = elim (Bool-cases (ltb d.base new.base)) [
  | inl e ↦ rw e (
    o.0,
    After-insert_behind (c.base + c.len) new d ds o.1,
    insert_behind-Ordered new d ds pos (ground arith) clear.1 o.2,
  )
  | inr e ↦ rw e (join_two-Ordered c new (d ∷ ds) o.0 (ground arith) pos (ground arith) o.2)
]

pub free-Ordered :
    (new : Cell) (cs : Cells)
    → 0 < new.len
    → Clear new cs
    → Ordered cs
    → Ordered (free_cells new cs)
free-Ordered new [] pos clear o = (pos, tt, tt)
free-Ordered new (c ∷ cs) pos clear o = elim (Bool-cases (leb new.base c.base)) [
  | inl e ↦
      rw e (
        join_two-Ordered new c cs pos (ground arith) o.0 (From-of_After (c.base + c.len) cs o.1)
          o.2)
  | inr e ↦ rw e (insert_behind-Ordered new c cs pos (ground arith) clear o)
]

join_one-Fits : (c : Cell) (cs : Cells) → Fits (c ∷ cs) → Fits (join_one c cs)
join_one-Fits c [] f = f
join_one-Fits c (d ∷ ds) f = elim (Bool-cases (touches c d)) [
  | inl e ↦ rw e (grow-Fits c d ds e f)
  | inr e ↦ rw e f
]

join_two-Fits : (c : Cell) (cs : Cells) → Fits (c ∷ cs) → Fits (join_two c cs)
join_two-Fits c [] f = f
join_two-Fits c (d ∷ ds) f = elim (Bool-cases (touches c d)) [
  | inl e ↦ rw e (join_one-Fits (grow c d) ds (grow-Fits c d ds e f))
  | inr e ↦ rw e (f.0, join_one-Fits d ds f.1)
]

insert_behind-Fits :
    (new c : Cell) (cs : Cells)
    → new.base + new.len < u32_mod
    → Fits (c ∷ cs)
    → Fits (insert_behind new c cs)
insert_behind-Fits new c [] h f = join_two-Fits c (new ∷ []) (f.0, (h, tt))
insert_behind-Fits new c (d ∷ ds) h f = elim (Bool-cases (ltb d.base new.base)) [
  | inl e ↦ rw e (f.0, insert_behind-Fits new d ds h f.1)
  | inr e ↦ rw e (join_two-Fits c (new ∷ d ∷ ds) (f.0, (h, f.1)))
]

pub free-Fits :
    (new : Cell) (cs : Cells) → new.base + new.len < u32_mod → Fits cs → Fits (free_cells new cs)
free-Fits new [] h f = (h, tt)
free-Fits new (c ∷ cs) h f = elim (Bool-cases (leb new.base c.base)) [
  | inl e ↦ rw e (join_two-Fits new (c ∷ cs) (h, f))
  | inr e ↦ rw e (insert_behind-Fits new c cs h f)
]
