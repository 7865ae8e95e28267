-- ===== src/Alloc/Lists/Collected.antt =====
-- minix/alloc.c: what `free_mem_list` and `alloc_mem_in_list` leave.
use native.Mathlib.Nat.{mul-div_cancel, mul-mod_left}
use tcp_and_parallel.Prelude.{
  ℕ, zero, suc, ◌+◌, ◌-◌, ◌*◌, ◌%◌, ◌≤◌, ◌<◌, ◌≡◌, refl, sym, ap, subst, ◌∙◌, inl, inr, Bool, true,
  ◌&&◌, Option, none, some, List, [], ◌∷◌, ltb, leb, ◌==◌, if◌then◌else◌, u32_mod, arith,
  Bool-cases, Gives, Gives-some, Gives->>=, Gives-weaken, length,
}
use tcp_and_parallel.Alloc.Avl.{AddrAvl}
use tcp_and_parallel.Alloc.Regions.{within}
use tcp_and_parallel.Alloc.Pages.{Flags, PageConfig, Got}
use tcp_and_parallel.Alloc.Lists.{
  Memlist, Supply, Freed, give_up, give_up_with, all_set, collect, alloc_mem_in_list,
}
use tcp_and_parallel.Alloc.Lists.Kept.{
  times_held, AllWhole, total_length, placed_at, Yields, IsKept, IsTaken, try_pages-Tried,
}
use tcp_and_parallel.Alloc.Lists.Bytes.{
  whole_bytes, product_pos, pos_of_div, all_three, one_there, entry, entry_lem, bytes_left,
  bytes_done,
}
use tcp_and_parallel.Alloc.Lists.Returned.{Kept, give_back, free_mem_list-Kept}

module _ (A : AddrAvl) (g : PageConfig) {S : Type 0}
    (free_yielded : ℕ → Supply A.Tree S → Freed A.Tree S) (yielding : S → ℕ → Bool) (blocks : S → ℕ)
    (avail : ℕ → ℕ) (single : (a : ℕ) → avail a ≤ 1) where
  open A use {Tree, ranges}

  -- What the list or NULL leaves, for this many bytes.
  abbrev pub Result : ℕ → Option (List Memlist) → Supply Tree S → Type 0
  Result bytes none s = Kept A g free_yielded yielding blocks avail single [] s
  Result bytes (some head) s =
      Kept A g free_yielded yielding blocks avail single head s
      × AllWhole g head
      × (total_length g head ≡ bytes)

  module _ (good : (a n : ℕ) → g.memset_ok a n ≡ true)
      (yields : Yields A g free_yielded yielding blocks) (no_page : g.no_mem ≡ 0)
      (never : avail 0 ≡ 0) (same_size : g.click_size ≡ g.page_size) (pos : 0 < g.page_size)
      (reach : (a : ℕ) → avail a ≡ 1 → (a + 1) * g.page_size ≤ u32_mod) where
    -- The block that was taken, at the head of the list.
    record Entered (head : List Memlist) (s : Supply Tree S) (m : Memlist) (n : ℕ) : Type 0 where
      kept : Kept A g free_yielded yielding blocks avail single (m ∷ head) s
      whole : AllWhole g (m ∷ head)
      bytes : m.length ≡ n * g.page_size

    enter :
        (rempages : ℕ) (head : List Memlist) (got : Got) (s : Supply Tree S)
        → AllWhole g head
        → (k : IsTaken A g free_yielded yielding blocks avail rempages head got s)
        → Entered head s (entry g.click_size got.mem k.count) k.count
    enter rempages head got s whole k =
        let last = got.mem + k.count - 1 in
        let in_block : within got.mem k.count last ≡ true = ground (arith, k.pos) in
        let one : avail last ≡ 1 =
          one_there (within got.mem k.count last)
            (placed_at A g free_yielded yielding blocks s last) (times_held g head last)
            (avail last) (k.placed last) (single last) in_block in
        let below : (got.mem + k.count) * g.page_size ≤ u32_mod =
          subst (λ (x : ℕ). x * g.page_size ≤ u32_mod) (omega (arith, k.pos)) (reach last one) in
        let some_mem : 0 < got.mem = ground (arith, k.some_block) in
        let plain =
          ap (λ (c : ℕ). entry c got.mem k.count) same_size
          ∙ entry_lem g.page_size got.mem k.count pos some_mem k.pos below in
        subst (λ (m : Memlist). Entered head s m k.count) (sym plain)
          (record {
            kept = record {
              sorted = k.sorted;
              placed =
                  λ a. rw (mul-div_cancel got.mem pos, mul-div_cancel k.count pos) (k.placed a);
            };
            whole = (
              mul-mod_left got.mem g.page_size,
              mul-mod_left k.count g.page_size,
              rw (mul-div_cancel k.count pos) k.pos,
              product_pos got.mem g.page_size pos some_mem,
              whole,
            );
            bytes = refl;
          })

    all_set-AllWhole : (head : List Memlist) → AllWhole g head → all_set head ≡ true
    unfolding all_set
    all_set-AllWhole [] whole = refl
    all_set-AllWhole (m ∷ rest) whole =
        let some_bytes = pos_of_div m.length g.page_size whole.2 in
        let later = all_set-AllWhole rest whole.4 in
        all_three m.phys m.length (all_set rest) whole.3 some_bytes later

    give_up-Result :
        (bytes : ℕ) (head : List Memlist) (s : Supply Tree S)
        → AllWhole g head
        → Kept A g free_yielded yielding blocks avail single head s
        → Gives (give_up A g free_yielded true head s) (λ r. Result bytes r.0 r.1)
    unfolding give_up
    give_up-Result bytes head s whole h =
        Gives->>= _ _
          (free_mem_list-Kept A g free_yielded yielding blocks avail single head s whole h)
          (λ t k. Gives-some (none, record s { tree = t }) k)

    -- No node for the list: it and the new block are given back.
    give_up_with-Result :
        (bytes rempages : ℕ) (head : List Memlist) (got : Got) (s : Supply Tree S)
        → AllWhole g head
        → (k : IsTaken A g free_yielded yielding blocks avail rempages head got s)
        → Gives
            (give_up_with A g free_yielded true head got.mem k.count s)
            (λ r. Result bytes r.0 r.1)
    unfolding give_up_with
    give_up_with-Result bytes rempages head got s whole k =
        let rest =
          λ (a : ℕ). placed_at A g free_yielded yielding blocks s a + times_held g head a in
        let rest_single : (a : ℕ) → rest a ≤ 1 = λ a. omega (arith, k.placed a, single a) in
        let start : IsKept A g free_yielded yielding blocks rest head s = record {
          sorted = k.sorted;
          placed = λ a. refl;
        } in
        Gives->>= _ _
          (Gives->>= _ _
            (free_mem_list-Kept A g free_yielded yielding blocks rest rest_single head s whole
              start)
            (λ t h.
              Gives-some
                {P = λ d. (d.0 ≡ none) × IsKept A g free_yielded yielding blocks rest [] d.1}
                (none, record s { tree = t }) (refl, h)))
          (λ d h.
            Gives->>= _ _
              (give_back A g free_yielded yielding blocks avail single got.mem k.count [] d.1 k.pos
                h.1.sorted (λ a. omega (arith, h.1.placed a, k.placed a)))
              (λ t h'.
                Gives-some (d.0, record d.1 { tree = t })
                  (subst (λ (x : Option (List Memlist)). Result bytes x (record d.1 { tree = t }))
                    (sym h.0) h')))

    -- The rounds: `rempages` are as many as there can be.
    collect-Result :
        (k fuel : ℕ) (slab_list : ℕ → Bool) (rempages : ℕ) (flags : Flags) (head : List Memlist)
        (s : Supply Tree S)
        → 0 < rempages
        → rempages ≤ k
        → blocks s.yielded < fuel
        → AllWhole g head
        → Kept A g free_yielded yielding blocks avail single head s
        → Gives
            (collect A g free_yielded k fuel slab_list true rempages flags head s)
            (λ r. Result (total_length g head + rempages * g.page_size) r.0 r.1)
    unfolding collect
    collect-Result zero fuel slab_list rempages flags head s some_pages le more whole h =
        absurd (omega arith)
    collect-Result (suc k) fuel slab_list rempages flags head s some_pages le more whole h =
        Gives->>= _ _
          (try_pages-Tried A g free_yielded yielding blocks good yields avail single
            (rw no_page never) fuel rempages flags head s some_pages more h)
          (λ r t. elim t.0 [
            | inl nothing ↦
                (let no_block : r.0.mem == g.no_mem ≡ true = ground (arith, nothing.0) in
                  rw no_block (give_up-Result _ head r.1 whole nothing.1))
            | inr taken ↦
                (let fits : (leb taken.count rempages && ltb 0 taken.count) ≡ true =
                    ground (arith, taken.le, taken.pos) in
                  let m = entry g.click_size r.0.mem taken.count in
                  let e = enter rempages head r.0 r.1 whole taken in
                  rw (taken.some_block, taken.written, fits)
                    (elim (Bool-cases (slab_list (length head))) [
                      | inl listed ↦ rw listed (elim (Bool-cases (ltb 0 (rempages - taken.count))) [
                        | inl again ↦ rw again (
                            Gives-weaken _
                              (λ q z.
                                subst (λ (x : ℕ). Result x q.0 q.1)
                                  (bytes_left (total_length g head) m.length rempages taken.count
                                    g.page_size taken.le e.bytes)
                                  z)
                              (collect-Result k fuel slab_list (rempages - taken.count) flags
                                (m ∷ head) r.1 (ground arith) (omega (arith, taken.pos))
                                (omega (arith, t.1)) e.whole e.kept))
                        | inr done ↦
                            (let ready = all_set-AllWhole (m ∷ head) e.whole in
                              rw (done, ready)
                                (Gives-some (some (m ∷ head), r.1)
                                  (
                                    e.kept,
                                    e.whole,
                                    bytes_done (total_length g head) m.length rempages taken.count
                                        g.page_size taken.le done e.bytes,
                                  )))
                      ])
                      | inr refused ↦
                          rw refused (give_up_with-Result _ rempages head r.0 r.1 whole taken)
                    ]))
          ])

    -- For some number of pages that is not 0, alloc_mem_in_list of as many bytes fails no
    -- assertion and ends, and returns NULL or a list. The blocks of a list are whole pages, none
    -- is empty, and together they are as many bytes as were asked for. No page is twice in the
    -- list, or in it and free, and none is lost: every page that was free or yielded is free,
    -- yielded or in the list; after NULL it is free or yielded. So it is when the ranges are in
    -- order, free and yielded pages are different ones, page 0 is neither and is NO_MEM, the pages
    -- lie below 2 ^ 32 bytes, clicks are pages, sys_memset and SLABALLOC for the tree do not fail,
    -- free_yielded only moves yielded pages to the tree and at least one block if it has freed
    -- anything, and there is fuel for each yielded block and one more.
    pub alloc_mem_in_list-Result :
        (fuel : ℕ) (slab_list : ℕ → Bool) (pages : ℕ) (contig : Bool) (flags : Flags)
        (s : Supply Tree S)
        → 0 < pages
        → blocks s.yielded < fuel
        → Kept A g free_yielded yielding blocks avail single [] s
        → Gives
            (alloc_mem_in_list A g free_yielded fuel slab_list true
              (pages * g.page_size)
              contig
              flags
              s)
            (λ r. Result (pages * g.page_size) r.0 r.1)
    unfolding alloc_mem_in_list
    alloc_mem_in_list-Result fuel slab_list pages contig flags s some_pages more h =
        let some_bytes = product_pos pages g.page_size pos some_pages in
        let asked : (ltb 0 (pages * g.page_size) && (pages * g.page_size) % g.page_size == 0)
            ≡ true =
          whole_bytes (pages * g.page_size) _ some_bytes (mul-mod_left pages g.page_size) in
        rw (asked, mul-div_cancel pages pos)
          (Gives-weaken _ (λ r z. subst (λ (x : ℕ). Result x r.0 r.1) (omega arith) z)
            (collect-Result pages fuel slab_list pages
              (if contig then flags else record flags { firstblock = true }) [] s some_pages
              (omega arith) more tt h))
