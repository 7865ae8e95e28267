-- ===== src/Alloc/Vm/Unpaged.antt =====
-- minix/alloc.c: the entry points with `vm_paged` 0.
use tcp_and_parallel.Prelude.{
  ℕ, zero, suc, ◌+◌, ◌-◌, ◌*◌, ◌/◌, ◌%◌, ◌≡◌, refl, inl, inr, Bool, true, false, none, ◌==◌,
  if◌then◌else◌, add32, arith, Bool-cases,
}
use tcp_and_parallel.Alloc.Table.{Table, Config, Run, ok, fault, panic, out_of_fuel, and_then, pure}
use tcp_and_parallel.Alloc.Avl.{AddrAvl}
use tcp_and_parallel.Alloc.Holes
use tcp_and_parallel.Alloc.Holes.Insert.{free_mem-empty}
use tcp_and_parallel.Alloc.Pages.{Flags, PageConfig, free_pages}
use tcp_and_parallel.Alloc.Vm.{Vm, lift, with_tree, free_mem, take, moved, align_up, alloc_mem}

module _ (A : AddrAvl) (c : Config) (g : PageConfig) (free_yielded : ℕ → A.Tree → A.Tree) where
  open A use {Tree, ranges}

  -- With `vm_paged` 0 `free_mem` is the one of the hole table.
  free_mem-holes :
      (slab : Bool) (base clicks : ℕ) (vm : Vm Tree)
      → vm.vm_paged ≡ false
      → free_mem A c g free_yielded slab base clicks vm
        ≡ lift vm (Holes.free_mem c base clicks vm.table)
  unfolding free_mem
  free_mem-holes slab base zero vm e = rw (free_mem-empty c vm.table base)
  free_mem-holes slab base (suc n) vm e =
      let some_clicks : (suc n == 0) ≡ false = ground arith in rw some_clicks (under vm.vm_paged e)
    where
      under :
          (paged : Bool)
          → paged ≡ false
          → (if paged
              then (if c.click_size == g.page_size
                  then with_tree A c g free_yielded vm (free_pages A slab base (suc n) vm.tree)
                  else none)
              else lift vm (Holes.free_mem c base (suc n) vm.table))
            ≡ lift vm (Holes.free_mem c base (suc n) vm.table)
      under true h = cc
      under false h = refl

  moved-lift :
      (vm : Vm Tree) (s : Table) (mem : ℕ) (q : Run (Unit {0}))
      → moved A c g free_yielded mem (lift (record vm { table = s }) q)
        ≡ lift vm (and_then q (λ _. pure mem))
  unfolding moved
  moved-lift vm s mem (ok tt t) = refl
  moved-lift vm s mem fault = refl
  moved-lift vm s mem panic = refl
  moved-lift vm s mem out_of_fuel = refl

  -- What `alloc_mem` does with the block that the walk found.
  abbrev finish : ℕ → ℕ → Table → Run ℕ
  finish n mem = if mem == c.no_mem then pure mem else Holes.align c n mem

  align_up-lift :
      (slab : Bool) (n : ℕ) (vm : Vm Tree) (r : Run ℕ)
      → vm.vm_paged ≡ false
      → align_up A c g free_yielded slab n (lift vm r) ≡ lift vm (and_then r (finish n))
  unfolding align_up Holes.align
  align_up-lift slab n vm fault e = refl
  align_up-lift slab n vm panic e = refl
  align_up-lift slab n vm out_of_fuel e = refl
  align_up-lift slab n vm (ok mem s) e = elim (Bool-cases (mem == c.no_mem)) [
    | inl a ↦ rw a
    | inr a ↦ elim (Bool-cases (n == 0)) [
      | inl b ↦ rw (a, b)
      | inr b ↦ elim (Bool-cases (mem % n == 0)) [
        | inl d ↦ rw (a, b, d)
        | inr d ↦
            rw (a, b, d, free_mem-holes slab mem (n - mem % n) (record vm { table = s }) e)
              (moved-lift vm s (add32 mem (n - mem % n)) (Holes.free_mem c mem (n - mem % n) s))
      ]
    ]
  ]

  take-holes :
      (clicks : ℕ) (flags : Flags) (vm : Vm Tree)
      → vm.vm_paged ≡ false
      → take A c g free_yielded clicks flags vm
        ≡ lift vm (
            Holes.alloc_loop (c.nr_holes + 1) c clicks flags.clear none vm.table.hole_head vm.table)
  unfolding take
  take-holes clicks flags vm e = ground arith

  -- With `vm_paged` 0, `alloc_mem` and `free_mem` are those of the hole table, and leave the tree
  -- alone.
  pub Vm-holes :
      (slab : Bool) (base freed clicks : ℕ) (flags : Flags) (vm : Vm Tree)
      → vm.vm_paged ≡ false
      → (free_mem A c g free_yielded slab base freed vm
          ≡ lift vm (Holes.free_mem c base freed vm.table))
        × (alloc_mem A c g free_yielded slab clicks flags vm
            ≡ lift vm (Holes.alloc_mem c clicks flags.align64k flags.clear vm.table))
  unfolding alloc_mem Holes.alloc_mem
  Vm-holes slab base freed clicks flags vm e =
      let n = if flags.align64k then 64 * 1024 / c.click_size else 0 in
      (
        free_mem-holes slab base freed vm e,
        rw (take-holes (add32 clicks n) flags vm e) (
            align_up-lift slab n vm
              (Holes.alloc_loop (c.nr_holes + 1) c (add32 clicks n) flags.clear none
                vm.table.hole_head vm.table)
              e),
      )
