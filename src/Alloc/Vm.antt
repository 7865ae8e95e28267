-- ===== src/Alloc/Vm.antt =====
-- minix/alloc.c: the entry points `alloc_mem` and `free_mem`, which go by `vm_paged` to the page
-- tree or to the hole table. A result is `none` where the code panics or an assertion fails.
pub mod Paged
pub mod Unpaged
use tcp_and_parallel.Prelude.{
  ℕ, zero, suc, ◌+◌, ◌-◌, ◌*◌, ◌/◌, ◌%◌, ◌≡◌, refl, ◌⊎◌, inl, inr, Bool, true, false, not, ◌&&◌,
  Option, none, some, ◌==◌, if◌then◌else◌, add32, u32_mod, arith, Bool-cases, ==_self, ==_of_ne,
  ◌<◌,
}
use tcp_and_parallel.Alloc.Table.{Table, Config, Run, ok, fault, panic, out_of_fuel, and_then, pure}
use tcp_and_parallel.Alloc.Avl.{AddrAvl, Sorted}
use tcp_and_parallel.Alloc.Holes
use tcp_and_parallel.Alloc.Regions.{within}
use tcp_and_parallel.Alloc.Pages.Spans.{page_at}
use tcp_and_parallel.Alloc.Holes.Insert.{free_mem-empty}
use tcp_and_parallel.Alloc.Pages.{Flags, PageConfig, Got, alloc_pages, free_pages}
use tcp_and_parallel.Alloc.Pages.Take.{Taken, Outcome, alloc_pages-Outcome}

pub record Vm (T : Type 0) : Type 0 where
  pub vm_paged : Bool
  pub table : Table
  pub tree : T

-- A command on the hole table, as one on the whole state.
abbrev pub lift : {A T : Type 0} → Vm T → Run A → Option (A × Vm T)
lift vm (ok a s) = some (a, record vm { table = s })
lift vm fault = none
lift vm panic = none
lift vm out_of_fuel = none

-- `free_yielded` belongs to another file of the VM server: it gives pages back to the tree.
module _ (A : AddrAvl) (c : Config) (g : PageConfig) (free_yielded : ℕ → A.Tree → A.Tree) where
  open A use {Tree, ranges}

  abbrev with_tree : Vm Tree → Option Tree → Option (Unit {0} × Vm Tree)
  with_tree vm none = none
  with_tree vm (some t) = some (tt, record vm { tree = t })

  pub free_mem : Bool → ℕ → ℕ → Vm Tree → Option (Unit {0} × Vm Tree)
  free_mem slab base clicks vm =
      if clicks == 0
      then some (tt, vm)
      else if vm.vm_paged
      then (if c.click_size == g.page_size
          then with_tree vm (free_pages A slab base clicks vm.tree)
          else none)
      else lift vm (Holes.free_mem c base clicks vm.table)

  -- A second try if the first finds nothing.
  try_again : ℕ → Flags → Option (Got × Tree) → Option (Got × Tree)
  try_again clicks flags none = none
  try_again clicks flags (some (got, t)) =
      if got.mem == g.no_mem
      then alloc_pages A g clicks flags false (free_yielded (clicks * c.click_size % u32_mod) t)
      else some (got, t)

  with_pages : Vm Tree → Option (Got × Tree) → Option (ℕ × Vm Tree)
  with_pages vm none = none
  with_pages vm (some (got, t)) = some (got.mem, record vm { tree = t })

  take : ℕ → Flags → Vm Tree → Option (ℕ × Vm Tree)
  unfolding try_again with_pages
  take clicks flags vm =
      if vm.vm_paged
      then with_pages vm (try_again clicks flags (alloc_pages A g clicks flags false vm.tree))
      else lift vm
          (Holes.alloc_loop (c.nr_holes + 1) c clicks flags.clear none vm.table.hole_head vm.table)

  moved : ℕ → Option (Unit {0} × Vm Tree) → Option (ℕ × Vm Tree)
  moved mem none = none
  moved mem (some (_, vm)) = some (mem, vm)

  align_up : Bool → ℕ → Option (ℕ × Vm Tree) → Option (ℕ × Vm Tree)
  unfolding moved
  align_up slab align_clicks none = none
  align_up slab align_clicks (some (mem, vm)) =
      if mem == c.no_mem
      then some (mem, vm)
      else if align_clicks == 0
      then some (mem, vm)
      else if mem % align_clicks == 0
      then some (mem, vm)
      else moved (add32 mem (align_clicks - mem % align_clicks))
          (free_mem slab mem (align_clicks - mem % align_clicks) vm)

  pub alloc_mem : Bool → ℕ → Flags → Vm Tree → Option (ℕ × Vm Tree)
  unfolding take align_up
  alloc_mem slab clicks flags vm =
      let align_clicks = if flags.align64k then 64 * 1024 / c.click_size else 0 in
      align_up slab align_clicks (take (add32 clicks align_clicks) flags vm)
