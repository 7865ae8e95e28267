-- ===== src/Alloc/Regions.antt =====
-- Which addresses the holes of minix/alloc.c hold, and how taking and freeing a block change that.
use tcp_and_parallel.Prelude.{
  ℕ, ◌+◌, ◌≤◌, ◌<◌, ◌≡◌, refl, inl, inr, Bool, true, false, not, ◌&&◌, ◌||◌, [], ◌∷◌, arith, ◌==◌,
  leb, ltb, Bool-cases, length,
}
use tcp_and_parallel.Alloc.Cells.{Cell, Cells}
use tcp_and_parallel.Alloc.Spec.{
  grow, join_one, join_two, bite_cells, alloc_cells, alloc_base, insert_behind, free_cells,
}
use tcp_and_parallel.Alloc.Order.{After, Ordered, Clear}

-- The address is one of the `n` from `b`.
abbrev pub within : ℕ → ℕ → ℕ → Bool
within b n a = leb b a && ltb a (b + n)

abbrev pub free_at : Cells → ℕ → Bool
free_at [] a = false
free_at (c ∷ cs) a = within c.base c.len a || free_at cs a

-- Some hole has room for `k`.
abbrev pub has_room : ℕ → Cells → Bool
has_room k [] = false
has_room k (c ∷ cs) = leb k c.len || has_room k cs

free_at-join_one : (c : Cell) (cs : Cells) (a : ℕ) → free_at (join_one c cs) a ≡ free_at (c ∷ cs) a
free_at-join_one c [] a = refl
free_at-join_one c (d ∷ ds) a = ground arith

free_at-join_two : (c : Cell) (cs : Cells) (a : ℕ) → free_at (join_two c cs) a ≡ free_at (c ∷ cs) a
free_at-join_two c [] a = refl
free_at-join_two c (d ∷ ds) a =
    ground (arith, free_at-join_one (grow c d) ds a, free_at-join_one d ds a)

free_at-insert_behind :
    (new c : Cell) (cs : Cells) (a : ℕ)
    → free_at (insert_behind new c cs) a ≡ (within new.base new.len a || free_at (c ∷ cs) a)
free_at-insert_behind new c [] a = ground (arith, free_at-join_two c (new ∷ []) a)
free_at-insert_behind new c (d ∷ ds) a =
    ground (arith, free_at-insert_behind new d ds a, free_at-join_two c (new ∷ d ∷ ds) a)

-- After a block is freed its addresses are free, and all others are as before.
pub free_at-free_cells :
    (new : Cell) (cs : Cells) (a : ℕ)
    → free_at (free_cells new cs) a ≡ (within new.base new.len a || free_at cs a)
free_at-free_cells new [] a = refl
free_at-free_cells new (c ∷ cs) a =
    ground (arith, free_at-join_two new (c ∷ cs) a, free_at-insert_behind new c cs a)

free_at-below :
    (n : ℕ) (cs : Cells) (a : ℕ) → After n cs → Ordered cs → a ≤ n → free_at cs a ≡ false
free_at-below n [] a h o k = refl
free_at-below n (c ∷ cs) a h o k = ground (arith, free_at-below (c.base + c.len) cs a o.1 o.2)

-- The block lies in one hole.
pub free_at-block :
    (no_mem k : ℕ) (cs : Cells) (a : ℕ)
    → has_room k cs ≡ true
    → within (alloc_base no_mem k cs) k a ≡ true
    → free_at cs a ≡ true
free_at-block no_mem k [] a h w = cc
free_at-block no_mem k (c ∷ cs) a h w = ground (arith, free_at-block no_mem k cs a)

alloc_base-After :
    (no_mem k n : ℕ) (cs : Cells)
    → has_room k cs ≡ true
    → After n cs
    → Ordered cs
    → n < alloc_base no_mem k cs
alloc_base-After no_mem k n [] h f o = cc
alloc_base-After no_mem k n (c ∷ cs) h f o = elim (Bool-cases (leb k c.len)) [
  | inl e ↦ rw e f
  | inr e ↦
      let later : c.base + c.len < alloc_base no_mem k cs =
        alloc_base-After no_mem k (c.base + c.len) cs (rw e at h) o.1 o.2 in
      rw e (omega arith)
]

free_at-bite :
    (k : ℕ) (c : Cell) (rest : Bool) (cs : Cells) (a : ℕ)
    → k ≤ c.len
    → free_at cs a ≡ rest
    → (a ≤ c.base + c.len → rest ≡ false)
    → free_at (bite_cells k c cs) a ≡ ((within c.base c.len a || rest) && not (within c.base k a))
free_at-bite k c rest cs a h e o = elim (Bool-cases (c.len == k)) [
  | inl all ↦ rw (all, e) (ground arith)
  | inr part ↦ rw (part, e) (ground arith)
]

pub within_apart : (b n c k a : ℕ) → b + n ≤ c → within b n a ≡ true → within c k a ≡ false
within_apart b n c k a h w = ground arith

pub keep : (w r b : Bool) → (w ≡ true → b ≡ false) → (w || (r && not b)) ≡ ((w || r) && not b)
keep w r b h = ground arith

-- After a block is taken its addresses are not free, and all others are as before.
pub free_at-alloc_cells :
    (no_mem k : ℕ) (cs : Cells) (a : ℕ)
    → has_room k cs ≡ true
    → Ordered cs
    → free_at (alloc_cells k cs) a ≡ (free_at cs a && not (within (alloc_base no_mem k cs) k a))
free_at-alloc_cells no_mem k [] a h o = cc
free_at-alloc_cells no_mem k (c ∷ cs) a h o = elim (Bool-cases (leb k c.len)) [
  | inl e ↦ rw e (
      free_at-bite k c (free_at cs a) cs a (ground arith) refl
        (free_at-below (c.base + c.len) cs a o.1 o.2))
  | inr e ↦
      let room : has_room k cs ≡ true = rw e at h in
      let ih : free_at (alloc_cells k cs) a
          ≡ (free_at cs a && not (within (alloc_base no_mem k cs) k a)) =
        free_at-alloc_cells no_mem k cs a room o.2 in
      let later : c.base + c.len < alloc_base no_mem k cs =
        alloc_base-After no_mem k (c.base + c.len) cs room o.1 o.2 in
      rw (e, ih)
        (keep (within c.base c.len a) (free_at cs a) (within (alloc_base no_mem k cs) k a)
          (within_apart c.base c.len (alloc_base no_mem k cs) k a (omega arith)))
]

-- With no room the holes stay, and the answer is NO_MEM.
pub alloc-no_room :
    (no_mem k : ℕ) (cs : Cells)
    → has_room k cs ≡ false
    → (alloc_cells k cs ≡ cs) × (alloc_base no_mem k cs ≡ no_mem)
alloc-no_room no_mem k [] h = (refl, refl)
alloc-no_room no_mem k (c ∷ cs) h = ground (arith, alloc-no_room no_mem k cs)

-- A block that lay in a hole is clear of the holes that are left.
pub Clear-of_free_at :
    (new : Cell) (cs : Cells)
    → 0 < new.len
    → Ordered cs
    → ((a : ℕ) → within new.base new.len a ≡ true → free_at cs a ≡ false)
    → Clear new cs
Clear-of_free_at new [] pos o h = tt
Clear-of_free_at new (c ∷ cs) pos o h = (
  ground (arith, h c.base, h new.base),
  Clear-of_free_at new cs pos o.2 (λ a w. ground (arith, h a)),
)

length-join_one : (c : Cell) (cs : Cells) → length (join_one c cs) ≤ length cs + 1
length-join_one c [] = omega arith
length-join_one c (d ∷ ds) = ground arith

length-join_two : (c : Cell) (cs : Cells) → length (join_two c cs) ≤ length cs + 1
length-join_two c [] = omega arith
length-join_two c (d ∷ ds) = ground (arith, length-join_one (grow c d) ds, length-join_one d ds)

length-insert_behind : (new c : Cell) (cs : Cells) → length (insert_behind new c cs) ≤ length cs + 2
length-insert_behind new c [] = omega (arith, length-join_two c (new ∷ []))
length-insert_behind new c (d ∷ ds) =
    ground (arith, length-insert_behind new d ds, length-join_two c (new ∷ d ∷ ds))

pub length-free_cells : (new : Cell) (cs : Cells) → length (free_cells new cs) ≤ length cs + 1
length-free_cells new [] = omega arith
length-free_cells new (c ∷ cs) =
    ground (arith, length-insert_behind new c cs, length-join_two new (c ∷ cs))

pub length-alloc_cells : (k : ℕ) (cs : Cells) → length (alloc_cells k cs) ≤ length cs
length-alloc_cells k [] = omega arith
length-alloc_cells k (c ∷ cs) = ground (arith, length-alloc_cells k cs)
