-- ===== src/Alloc/Lists.antt =====
-- minix/alloc.c: memory in lists of blocks. A result is `none` where an assertion fails, the code
-- panics, or fuel is used up. VM_PAGE_SIZE and CLICK_SIZE are those of `PageConfig`.
pub mod Bytes
pub mod Kept
pub mod Counts
pub mod Collected
pub mod Returned
use tcp_and_parallel.Prelude.{
  ℕ, zero, suc, ◌+◌, ◌-◌, ◌*◌, ◌/◌, ◌%◌, Bool, true, false, ◌&&◌, Option, none, some, List, [], ◌∷◌,
  ltb, leb, ◌==◌, if◌then◌else◌, ◌>>=◌, u32_mod, length,
}
use tcp_and_parallel.Alloc.Avl.{AddrAvl}
use tcp_and_parallel.Alloc.Pages.{Flags, PageConfig, Got, alloc_pages, free_pages}

-- `struct memlist`, without the link; a list has its head first.
pub record Memlist : Type 0 where
  pub phys : ℕ
  pub length : ℕ

-- The tree, and what `free_yielded` of another file keeps.
pub record Supply (T S : Type 0) : Type 0 where
  pub tree : T
  pub yielded : S

-- `free_yielded` says how much it has freed.
pub record Freed (T S : Type 0) : Type 0 where
  pub freed : ℕ
  pub pool : Supply T S

-- The assertions at the end.
all_set : List Memlist → Bool
all_set [] = true
all_set (m ∷ rest) = ltb 0 m.phys && ltb 0 m.length && all_set rest

module _ (A : AddrAvl) (g : PageConfig) where
  open A use {Tree}

  -- `slab` answers SLABALLOC for the nodes of the tree.
  unfoldable pub free_mem_list : Bool → List Memlist → Bool → Tree → Option Tree
  free_mem_list slab [] all t = some t
  free_mem_list slab (m ∷ rest) all t =
      if m.phys % g.page_size == 0 && m.length % g.page_size == 0
      then ((if all
            then free_pages A slab (m.phys / g.page_size) (m.length / g.page_size) t
            else some t)
          >>= λ t'. free_mem_list slab rest all t')
      else none

  module _ {S : Type 0} (free_yielded : ℕ → Supply Tree S → Freed Tree S) where
    -- The inner loop: allocate, and give yielded memory back while that frees any.
    unfoldable pub try_pages : ℕ → ℕ → Flags → Supply Tree S → Option (Got × Supply Tree S)
    try_pages zero rempages flags s = none
    try_pages (suc k) rempages flags s = alloc_pages A g rempages flags true s.tree >>= λ r.
        let s' = record s { tree = r.1 } in
        let y = free_yielded (rempages * g.page_size % u32_mod) s' in
        let again = try_pages k rempages flags y.pool in
        if r.0.mem == g.no_mem
        then (if ltb 0 y.freed then again else some (r.0, y.pool))
        else some (r.0, s')

    -- Out of memory: what was collected is given back.
    give_up : Bool → List Memlist → Supply Tree S → Option (Option (List Memlist) × Supply Tree S)
    give_up slab head s =
        free_mem_list slab head true s.tree >>= λ t. some (none, record s { tree = t })

    -- No node for a new block: the list and the block are given back.
    give_up_with :
        Bool
        → List Memlist
        → (mem gotpages : ℕ) → Supply Tree S
        → Option (Option (List Memlist) × Supply Tree S)
    unfolding give_up
    give_up_with slab head mem gotpages s = give_up slab head s >>= λ d.
        free_pages A slab mem gotpages d.1.tree >>= λ t. some (d.0, record d.1 { tree = t })

    -- The outer loop, with `k` rounds left. `slab_list` answers SLABALLOC for the list, by its length.
    pub collect :
        (k fuel : ℕ)
        → (ℕ → Bool)
        → Bool
        → ℕ
        → Flags
        → List Memlist
        → Supply Tree S
        → Option (Option (List Memlist) × Supply Tree S)
    unfolding give_up_with all_set try_pages
    collect zero fuel slab_list slab rempages flags head s = none
    collect (suc k) fuel slab_list slab rempages flags head s =
        try_pages fuel rempages flags s >>= λ r.
        let got = r.0.len >>= λ gotpages.
        let head' =
          record {
            phys = r.0.mem * g.click_size % u32_mod;
            length = gotpages * g.click_size % u32_mod;
          }
          ∷ head in
        let rest = collect k fuel slab_list slab (rempages - gotpages) flags head' r.1 in
        if leb gotpages rempages && ltb 0 gotpages
        then (if slab_list (length head)
            then (if ltb 0 (rempages - gotpages)
                then rest
                else if all_set head'
                then some (some head', r.1)
                else none)
            else give_up_with slab head r.0.mem gotpages r.1)
        else none in
        if r.0.mem == g.no_mem then give_up slab head r.1 else got

    -- A list that is NULL is `none`. `contig` is PAF_CONTIG.
    pub alloc_mem_in_list :
        ℕ
        → (ℕ → Bool)
        → Bool
        → ℕ
        → Bool
        → Flags
        → Supply Tree S
        → Option (Option (List Memlist) × Supply Tree S)
    unfolding collect
    alloc_mem_in_list fuel slab_list slab bytes contig flags s =
        let rempages = bytes / g.page_size in
        if ltb 0 bytes && bytes % g.page_size == 0
        then collect rempages fuel slab_list slab rempages
            (if contig then flags else record flags { firstblock = true }) [] s
        else none
