-- ===== src/Alloc/Pages.antt =====
-- minix/alloc.c: `alloc_pages`, `free_pages` and `memstats` over the tree of free page ranges. A result is `none` where the code panics or an assertion
-- fails.
pub mod Give
pub mod Fused
pub mod Grown
pub mod Spans
pub mod Take
pub mod Located
use tcp_and_parallel.Prelude.{
  ℕ, zero, suc, ◌+◌, ◌-◌, ◌*◌, ◌/◌, ◌%◌, Bool, true, false, not, ◌&&◌, ◌||◌, Option, none, some,
  List, [], ◌∷◌, reverse, leb, ltb, ◌==◌, if◌then◌else◌,
}
use tcp_and_parallel.Alloc.Avl.{PageRange, Ranges, before, AddrAvl}

-- The bits PAF_ALIGN64K, PAF_LOWER16MB, PAF_LOWER1MB, PAF_FIRSTBLOCK and PAF_CLEAR of `memflags`.
pub record Flags : Type 0 where
  pub align64k : Bool
  pub lower16mb : Bool
  pub lower1mb : Bool
  pub firstblock : Bool
  pub clear : Bool

-- What comes from outside: CLICK_SIZE, VM_PAGE_SIZE, NO_MEM, and whether `sys_memset` returns OK.
pub record PageConfig : Type 0 where
  pub click_size : ℕ
  pub page_size : ℕ
  pub no_mem : ℕ
  pub memset_ok : ℕ → ℕ → Bool

pub data Found : Type 0 where
  block : PageRange → Found
  refused : Found  -- `return NO_MEM` at a boundary
  missing : Found  -- the walk ends
  aborted : Found  -- `assert(pr->size > 0)`

-- The limits of `memflags` on a range that is big enough.
pub within_limits : PageConfig → Flags → ℕ → PageRange → Found
within_limits c flags pages pr =
    if flags.lower16mb && ltb (16 * 1024 * 1024 / c.page_size) (pr.addr + pages)
    then refused
    else if flags.lower1mb && ltb (1 * 1024 * 1024 / c.page_size) (pr.addr + pages)
    then refused
    else block pr

pub find_block : PageConfig → Flags → ℕ → Ranges → Found
unfolding within_limits
find_block c flags pages [] = missing
find_block c flags pages (pr ∷ prs) =
    let rest = find_block c flags pages prs in
    if pr.size == 0
    then aborted
    else if leb pages pr.size || flags.firstblock
    then within_limits c flags pages pr
    else rest

-- What the call returns, and what it writes to `*len`, if anything.
pub record Got : Type 0 where
  pub mem : ℕ
  pub len : Option ℕ

module _ (A : AddrAvl) (c : PageConfig) where
  open A use {Tree, ranges, remove, write}

  abbrev walk_order : Flags → Tree → Ranges
  walk_order flags t = if flags.lower16mb || flags.lower1mb then ranges t else reverse (ranges t)

  -- The block is cut off the high end of the range.
  cut_range : PageRange → ℕ → Tree → Tree
  cut_range pr pages t =
      if pr.size == pages
      then remove pr.addr t
      else write pr.addr (record pr { size = pr.size - pages }) t

  take_block : Flags → ℕ → Bool → PageRange → Tree → Option (Got × Tree)
  unfolding cut_range
  take_block flags pages len pr t =
      let mem = pr.addr + pr.size - pages in
      if ltb pr.size pages
      then none
      else if flags.clear && not (c.memset_ok (c.click_size * mem) (c.page_size * pages))
      then none
      else some (record { mem = mem; len = if len then some pages else none }, cut_range pr pages t)

  alloc_found : Flags → ℕ → Bool → Found → Tree → Option (Got × Tree)
  unfolding take_block
  alloc_found flags pages len aborted t = none
  alloc_found flags pages len refused t = some (record { mem = c.no_mem; len = none }, t)
  alloc_found flags pages len missing t =
      some (record { mem = c.no_mem; len = if len then some 0 else none }, t)
  alloc_found flags pages len (block pr) t =
      if flags.firstblock && not len
      then none
      else take_block flags (if flags.firstblock && ltb pr.size pages then pr.size else pages) len
          pr t

  -- `len` says whether the pointer `len` is not NULL.
  unfoldable pub alloc_pages : ℕ → Flags → Bool → Tree → Option (Got × Tree)
  unfolding alloc_found find_block
  alloc_pages pages flags len t =
      alloc_found flags pages len (find_block c flags pages (walk_order flags t)) t

module _ (A : AddrAvl) where
  open A use {Tree, ranges, search, insert, remove, write}

  -- The new range, joined with its higher neighbour if there is one. `slab` says whether SLABALLOC
  -- finds memory.
  add_range : Bool → ℕ → ℕ → Option PageRange → Tree → Option (PageRange × Tree)
  add_range slab pageno npages (some pr) t =
      let joined : PageRange = record { addr = pr.addr - npages; size = pr.size + npages } in
      some (joined, write pr.addr joined t)
  add_range slab pageno npages none t =
      let new : PageRange = record { addr = pageno; size = npages } in
      if slab && ltb 0 npages then some (new, insert new t) else none

  -- The lower neighbour takes the range in if it touches it.
  join_lower : PageRange → Option PageRange → Tree → Tree
  join_lower pr none t = t
  join_lower pr (some p) t =
      if p.addr + p.size == pr.addr
      then remove pr.addr (write p.addr (record p { size = p.size + pr.size }) t)
      else t

  join_found : Option (PageRange × Tree) → Option Tree
  unfolding join_lower
  join_found none = none
  join_found (some (pr, t)) = some (join_lower pr (before pr.addr (ranges t)) t)

  free_checked : Bool → ℕ → ℕ → Option PageRange → Tree → Option Tree
  unfolding add_range join_found
  free_checked slab pageno npages (some _) t = none
  free_checked slab pageno npages none t =
      join_found (add_range slab pageno npages (search (pageno + npages) t) t)

  pub free_pages : Bool → ℕ → ℕ → Tree → Option Tree
  unfolding free_checked
  free_pages slab pageno npages t = free_checked slab pageno npages (search pageno t) t

-- `memstats`: the number of ranges, of pages, and the size of the largest.
pub record Stats : Type 0 where
  pub nodes : ℕ
  pub pages : ℕ
  pub largest : ℕ

stats_loop : Ranges → Stats → Stats
stats_loop [] x = x
stats_loop (p ∷ ps) x = stats_loop ps (record {
  nodes = x.nodes + 1;
  pages = x.pages + p.size;
  largest = if ltb x.largest p.size then p.size else x.largest;
})

pub memstats : (A : AddrAvl) → A.Tree → Stats
unfolding stats_loop
memstats A t = stats_loop (A.ranges t) (record { nodes = 0; pages = 0; largest = 0 })
