-- ===== src/Alloc/Lists/Returned.antt =====
-- minix/alloc.c: free_mem_list gives the blocks of a list back.

use tcp_and_parallel.Prelude.{
  ℕ, ◌+◌, ◌/◌, ◌≤◌, ◌<◌, ◌≡◌, Bool, true, List, [], ◌∷◌, Gives, Gives-some, Gives->>=,
}
use tcp_and_parallel.Alloc.Avl.{AddrAvl, Sorted}
use tcp_and_parallel.Alloc.Regions.{within}
use tcp_and_parallel.Alloc.Pages.Spans.{page_at}
use tcp_and_parallel.Alloc.Pages.{PageConfig, free_pages}
use tcp_and_parallel.Alloc.Pages.Give.{free_pages-Given}
use tcp_and_parallel.Alloc.Lists.{Memlist, Supply, Freed, free_mem_list}
use tcp_and_parallel.Alloc.Lists.Kept.{times_held, AllWhole, placed_at, IsKept}
use tcp_and_parallel.Alloc.Lists.Counts.{one_if, given_once, not_free, Clear-apart}

module _ (A : AddrAvl) (g : PageConfig) {S : Type 0}
    (free_yielded : ℕ → Supply A.Tree S → Freed A.Tree S) (yielding : S → ℕ → Bool) (blocks : S → ℕ)
    (avail : ℕ → ℕ) (single : (a : ℕ) → avail a ≤ 1) where
  open A use {Tree, ranges}

  -- The list and the free pages, with the number of yielded blocks left out.
  abbrev pub Kept : List Memlist → Supply Tree S → Type 0
  Kept head s = IsKept A g free_yielded yielding blocks avail head s

  pub give_back :
      (b n : ℕ) (head : List Memlist) (s : Supply Tree S)
      → 0 < n
      → Sorted (ranges s.tree)
      → ((a : ℕ)
          → placed_at A g free_yielded yielding blocks s a
              + (one_if (within b n a) + times_held g head a)
            ≡ avail a)
      → Gives (free_pages A true b n s.tree) (λ t. Kept head (record s { tree = t }))
  give_back b n head s pos sorted placed =
      let clear = Clear-apart b n (ranges s.tree) pos sorted (λ a w.
        not_free (page_at (ranges s.tree) a) (within b n a) (one_if (yielding s.yielded a))
          (times_held g head a) (avail a) (placed a) (single a) w) in
      let r = free_pages-Given A b n s.tree pos sorted clear in
      record {
        result = r.0;
        computed = r.1;
        holds = record {
          sorted = r.2.sorted;
          placed = λ a.
              given_once (page_at (ranges s.tree) a) (within b n a) (page_at (ranges r.0) a)
                (one_if (yielding s.yielded a)) (times_held g head a) (avail a) (r.2.free a)
                (placed a) (single a);
        };
      }

  pub free_mem_list-Kept :
      (head : List Memlist) (s : Supply Tree S)
      → AllWhole g head
      → Kept head s
      → Gives (free_mem_list A g true head true s.tree) (λ t. Kept [] (record s { tree = t }))
  unfolding free_mem_list
  free_mem_list-Kept [] s whole h = Gives-some s.tree h
  free_mem_list-Kept (m ∷ rest) s whole h =
      rw (whole.0, whole.1)
        (Gives->>= _ _
          (give_back (m.phys / g.page_size) (m.length / g.page_size) rest s whole.2 h.sorted
            h.placed)
          (λ t k. free_mem_list-Kept rest (record s { tree = t }) whole.4 k))
