-- ===== src/Alloc/Lists/Kept.antt =====
-- minix/alloc.c: the pages that are free, yielded or in a list, and how the steps move them.
use tcp_and_parallel.Prelude.{
  ℕ, zero, suc, ◌+◌, ◌*◌, ◌/◌, ◌%◌, ◌≤◌, ◌<◌, ◌≡◌, sym, subst, ◌⊎◌, inl, inr, Bool, true, false,
  some, List, [], ◌∷◌, ltb, ◌==◌, u32_mod, arith, Gives, Gives-some, Gives-weaken, if_ind, ==_of_ne,
}
use tcp_and_parallel.Alloc.Avl.{AddrAvl, Sorted}
use tcp_and_parallel.Alloc.Regions.{within}
use tcp_and_parallel.Alloc.Pages.Spans.{page_at}
use tcp_and_parallel.Alloc.Pages.{Flags, PageConfig, Got}
use tcp_and_parallel.Alloc.Pages.Take.{Taken, alloc_pages-Outcome}
use tcp_and_parallel.Alloc.Lists.{Memlist, Supply, Freed, try_pages}
use tcp_and_parallel.Alloc.Lists.Counts.{one_if, taken_once}

-- A page, counted once where it is.
module _ (g : PageConfig) where
  abbrev block_pages : Memlist → ℕ → Bool
  block_pages m a = within (m.phys / g.page_size) (m.length / g.page_size) a

  -- How often a page is in the list.
  abbrev pub times_held : List Memlist → ℕ → ℕ
  times_held [] a = 0
  times_held (m ∷ rest) a = one_if (block_pages m a) + times_held rest a

  -- Blocks of whole pages, none empty and none at 0.
  abbrev pub AllWhole : List Memlist → Type 0
  AllWhole [] = Unit
  AllWhole (m ∷ rest) =
      (m.phys % g.page_size ≡ 0)
      × (m.length % g.page_size ≡ 0)
      × (0 < m.length / g.page_size)
      × (0 < m.phys)
      × AllWhole rest

  abbrev pub total_length : List Memlist → ℕ
  total_length [] = 0
  total_length (m ∷ rest) = m.length + total_length rest

module _ (A : AddrAvl) (g : PageConfig) {S : Type 0}
    (free_yielded : ℕ → Supply A.Tree S → Freed A.Tree S) where
  open A use {Tree, ranges}

  module _ (yielding : S → ℕ → Bool) (blocks : S → ℕ) where
    -- How often a page is free or yielded.
    abbrev pub placed_at : Supply Tree S → ℕ → ℕ
    placed_at s a = one_if (page_at (ranges s.tree) a) + one_if (yielding s.yielded a)

    -- `free_yielded` moves yielded pages to the tree, a block at least if it has freed anything.
    pub record Yields : Type 0 where
      pub sorted :
          (n : ℕ) (s : Supply Tree S)
          → Sorted (ranges s.tree)
          → ((a : ℕ) → placed_at s a ≤ 1)
          → Sorted (ranges (free_yielded n s).pool.tree)
      pub same :
          (n : ℕ) (s : Supply Tree S) (a : ℕ) → placed_at (free_yielded n s).pool a ≡ placed_at s a
      pub fewer :
          (n : ℕ) (s : Supply Tree S)
          → 0 < (free_yielded n s).freed
          → blocks (free_yielded n s).pool.yielded < blocks s.yielded
      pub no_more :
          (n : ℕ) (s : Supply Tree S) → blocks (free_yielded n s).pool.yielded ≤ blocks s.yielded

    -- Every page is where it is once: free, yielded, or in the list.
    pub record IsKept (avail : ℕ → ℕ) (head : List Memlist) (s : Supply Tree S) : Type 0 where
      pub sorted : Sorted (ranges s.tree)
      pub placed : (a : ℕ) → placed_at s a + times_held g head a ≡ avail a

    pub record IsTaken (avail : ℕ → ℕ) (rempages : ℕ) (head : List Memlist) (got : Got)
        (s : Supply Tree S) : Type 0 where
      pub count : ℕ
      pub written : got.len ≡ some count
      pub pos : 0 < count
      pub le : count ≤ rempages
      pub some_block : got.mem == g.no_mem ≡ false
      pub sorted : Sorted (ranges s.tree)
      pub placed :
          (a : ℕ)
          → placed_at s a + (one_if (within got.mem count a) + times_held g head a) ≡ avail a

    module _ (good : (a n : ℕ) → g.memset_ok a n ≡ true) (yields : Yields) (avail : ℕ → ℕ)
        (single : (a : ℕ) → avail a ≤ 1) (never : avail g.no_mem ≡ 0) where
      -- Nothing was found, or a block was.
      abbrev pub Tried : ℕ → List Memlist → Got × Supply Tree S → Type 0
      Tried rempages head r =
          (r.0.mem ≡ g.no_mem) × IsKept avail head r.1 ⊎ IsTaken avail rempages head r.0 r.1

      Taken-IsTaken :
          (rempages : ℕ) (flags : Flags) (head : List Memlist) (s : Supply Tree S) (got : Got)
          (u : Tree)
          → 0 < rempages
          → IsKept avail head s
          → Taken A g good flags rempages true s.tree got u
          → IsTaken avail rempages head got (record s { tree = u })
      Taken-IsTaken rempages flags head s got u pos h k =
          let some_pages : 0 < k.count = k.nonempty pos in
          record {
            count = k.count;
            written = k.written;
            pos = some_pages;
            le = ground (arith, k.asked);
            some_block = ==_of_ne got.mem g.no_mem (λ e.
                let was = k.was_free got.mem (ground arith) in
                let at = h.placed got.mem in
                let none_there : avail got.mem ≡ 0 = subst (λ (x : ℕ). avail x ≡ 0) (sym e) never in
                absurd (ground (arith, was, at, none_there)));
            sorted = k.sorted;
            placed = λ a.
                taken_once (page_at (ranges s.tree) a) (within got.mem k.count a)
                  (page_at (ranges u) a) (one_if (yielding s.yielded a)) (times_held g head a)
                  (avail a) (k.free a) (k.was_free a) (h.placed a);
          }

      yields-IsKept :
          (head : List Memlist) (n : ℕ) (s : Supply Tree S)
          → IsKept avail head s
          → IsKept avail head (free_yielded n s).pool
      yields-IsKept head n s h = record {
        sorted = yields.sorted n s h.sorted (λ a. omega (arith, h.placed a, single a));
        placed = λ a. omega (arith, yields.same n s a, h.placed a);
      }

      -- One block fewer yielded each time, so that fuel for each of them and one more is enough.
      pub try_pages-Tried :
          (k rempages : ℕ) (flags : Flags) (head : List Memlist) (s : Supply Tree S)
          → 0 < rempages
          → blocks s.yielded < k
          → IsKept avail head s
          → Gives
              (try_pages A g free_yielded k rempages flags s)
              (λ r. Tried rempages head r × (blocks r.1.yielded ≤ blocks s.yielded))
      unfolding try_pages
      try_pages-Tried zero rempages flags head s pos fuel h = absurd (omega arith)
      try_pages-Tried (suc k) rempages flags head s pos fuel h =
          let r = alloc_pages-Outcome A g good flags rempages true s.tree (ground arith) h.sorted in
          let n = rempages * g.page_size % u32_mod in
          let s' : Supply Tree S = record s { tree = r.0.1 } in
          let y = free_yielded n s' in
          rw r.1 (elim r.2 [
            | inl nothing ↦
                (let same : IsKept avail head s' =
                    subst (λ (t : Tree). IsKept avail head (record s { tree = t })) (sym nothing.1)
                      h in
                  let after : IsKept avail head y.pool = yields-IsKept head n s' same in
                  let no_block : r.0.0.mem == g.no_mem ≡ true = ground (arith, nothing.0) in
                  rw no_block (
                    if_ind
                      (λ o.
                        Gives o
                          (λ r. Tried rempages head r × (blocks r.1.yielded ≤ blocks s.yielded)))
                      (ltb 0 y.freed) (try_pages A g free_yielded k rempages flags y.pool)
                      (some (r.0.0, y.pool))
                      (λ more.
                        let fewer = yields.fewer n s' (ground arith) in
                        Gives-weaken _ (λ q t. (t.0, omega (arith, t.1, fewer)))
                          (try_pages-Tried k rempages flags head y.pool pos (omega (arith, fewer))
                            after))
                      (λ done.
                        Gives-some (r.0.0, y.pool) (inl (nothing.0, after), yields.no_more n s'))))
            | inr taken ↦
                (let t = Taken-IsTaken rempages flags head s r.0.0 r.0.1 pos h taken in
                  rw t.some_block (Gives-some (r.0.0, s') (inr t, omega arith)))
          ])
