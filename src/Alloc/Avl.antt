-- ===== src/Alloc/Avl.antt =====
-- The tree of free page ranges that minix/alloc.c keeps: its code (addravl.h, cavl) is not in the
-- repository, so it is an interface. What the allocator relies on is said of the ranges in the
-- order in which the iterators walk them.
use tcp_and_parallel.Prelude.{
  ℕ, ◌+◌, ◌≤◌, ◌<◌, ◌≡◌, Option, none, some, List, [], ◌∷◌, ltb, ◌==◌, if◌then◌else◌,
}

-- `pagerange_t`, without the links.
pub record PageRange : Type 0 where
  pub addr : ℕ
  pub size : ℕ

abbrev pub Ranges : Type 0
Ranges = List PageRange

-- Each range ends at or below the start of the next.
abbrev pub From : ℕ → Ranges → Type 0
From n [] = Unit
From n (r ∷ rs) = n ≤ r.addr

abbrev pub Above : ℕ → Ranges → Type 0
Above n [] = Unit
Above n (r ∷ rs) = n < r.addr

-- Ranges in order of address, none empty, and no two overlapping.
abbrev pub Sorted : Ranges → Type 0
Sorted [] = Unit
Sorted (r ∷ rs) = (0 < r.size) × From (r.addr + r.size) rs × Sorted rs

-- The addresses go up: what a search in the tree needs.
abbrev pub Increasing : Ranges → Type 0
Increasing [] = Unit
Increasing (r ∷ rs) = Above r.addr rs × Increasing rs

abbrev pub find_at : ℕ → Ranges → Option PageRange
find_at a [] = none
find_at a (r ∷ rs) = if r.addr == a then some r else find_at a rs

abbrev pub insert_sorted : PageRange → Ranges → Ranges
insert_sorted new [] = new ∷ []
insert_sorted new (r ∷ rs) = if ltb new.addr r.addr then new ∷ r ∷ rs else r ∷ insert_sorted new rs

abbrev pub remove_at : ℕ → Ranges → Ranges
remove_at a [] = []
remove_at a (r ∷ rs) = if r.addr == a then rs else r ∷ remove_at a rs

abbrev pub replace_at : ℕ → PageRange → Ranges → Ranges
replace_at a new [] = []
replace_at a new (r ∷ rs) = if r.addr == a then new ∷ rs else r ∷ replace_at a new rs

-- The predecessor in the walk: the last range below the address.
abbrev pub before : ℕ → Ranges → Option PageRange
before a [] = none
before a (r ∷ []) = if ltb r.addr a then some r else none
before a (r ∷ q ∷ rs) =
    if ltb q.addr a then before a (q ∷ rs) else if ltb r.addr a then some r else none

-- `write` changes the fields of a node in place.
pub record AddrAvl : Type 1 where
  pub Tree : Type 0
  pub empty : Tree
  pub ranges : Tree → Ranges
  pub search : ℕ → Tree → Option PageRange
  pub insert : PageRange → Tree → Tree
  pub remove : ℕ → Tree → Tree
  pub write : ℕ → PageRange → Tree → Tree
  pub ranges-empty : ranges empty ≡ []
  pub search_lem : (a : ℕ) (t : Tree) → Increasing (ranges t) → search a t ≡ find_at a (ranges t)
  pub ranges-insert :
      (r : PageRange) (t : Tree)
      → Increasing (ranges t)
      → find_at r.addr (ranges t) ≡ none
      → ranges (insert r t) ≡ insert_sorted r (ranges t)
  pub ranges-remove :
      (a : ℕ) (t : Tree) → Increasing (ranges t) → ranges (remove a t) ≡ remove_at a (ranges t)
  pub ranges-write :
      (a : ℕ) (r : PageRange) (t : Tree)
      → Increasing (ranges t)
      → ranges (write a r t) ≡ replace_at a r (ranges t)
