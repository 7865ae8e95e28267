-- ===== src/Alloc/Vm/Paged.antt =====
-- minix/alloc.c: `alloc_mem` with `vm_paged` set.
use tcp_and_parallel.Prelude.{
  ℕ, ◌*◌, ◌/◌, ◌%◌, ◌≡◌, ◌⊎◌, inl, inr, Bool, true, false, not, ◌&&◌, some, ◌==◌, if◌then◌else◌,
  add32, u32_mod, arith, Bool-cases, ==_self, ==_of_ne, eq_of_==, subst, ◌<◌, add32_of_lt, ◌∙◌,
}
use tcp_and_parallel.Alloc.Table.{Config}
use tcp_and_parallel.Alloc.Avl.{AddrAvl, Sorted}
use tcp_and_parallel.Alloc.Regions.{within}
use tcp_and_parallel.Alloc.Pages.Spans.{page_at}
use tcp_and_parallel.Alloc.Pages.{Flags, PageConfig, Got, alloc_pages}
use tcp_and_parallel.Alloc.Pages.Take.{Taken, alloc_pages-Outcome}
use tcp_and_parallel.Alloc.Vm.{Vm, try_again, with_pages, take, align_up, alloc_mem}

module _ (A : AddrAvl) (c : Config) (g : PageConfig) (free_yielded : ℕ → A.Tree → A.Tree) where
  open A use {Tree, ranges}

  -- A block of `clicks` pages from `v` that was free in `t` and is not in `u`.
  pub record PagesTaken (t u : Tree) (v clicks : ℕ) : Type 0 where
    pub was_free : (a : ℕ) → within v clicks a ≡ true → page_at (ranges t) a ≡ true
    pub free : (a : ℕ) → page_at (ranges u) a ≡ (page_at (ranges t) a && not (within v clicks a))
    pub sorted : Sorted (ranges u)

  module _ (good : (a n : ℕ) → g.memset_ok a n ≡ true)
      (keeps : (n : ℕ) (t : Tree) → Sorted (ranges t) → Sorted (ranges (free_yielded n t)))
      (clicks : ℕ) (flags : Flags) (pos : 0 < clicks) (small : clicks < u32_mod)
      (whole : flags.firstblock ≡ false) where
    Taken-PagesTaken :
        (t u : Tree) (got : Got)
        → Taken A g good flags clicks false t got u
        → PagesTaken t u got.mem clicks
    Taken-PagesTaken t u got k =
        let all : k.count ≡ clicks = ground (arith, k.asked) in
        record { was_free = rw all at k.was_free; free = rw all at k.free; sorted = k.sorted }

    -- Neither tree has NO_MEM among its free pages, so a block is never taken for a failure.
    abbrev Attempt : Tree → Got × Tree → Type 0
    Attempt t r =
        ((r.0.mem == g.no_mem) ≡ true) × (r.1 ≡ t)
        ⊎ ((r.0.mem == g.no_mem) ≡ false) × PagesTaken t r.1 r.0.mem clicks

    attempt :
        (t : Tree)
        → Sorted (ranges t)
        → page_at (ranges t) g.no_mem ≡ false
        → (r : Got × Tree) × (alloc_pages A g clicks flags false t ≡ some r) × Attempt t r
    attempt t s never =
        let r = alloc_pages-Outcome A g good flags clicks false t (ground arith) s in
        (
          r.0,
          r.1,
          elim r.2 [
            | inl h ↦ inl (rw h.0 (==_self g.no_mem), h.1)
            | inr k ↦
                let p = Taken-PagesTaken t r.0.1 r.0.0 k in
                inr (
                  ==_of_ne r.0.0.mem g.no_mem
                      (λ e. let was = p.was_free r.0.0.mem (ground arith) in absurd (ground arith)),
                  p,
                )
          ],
        )

    abbrev pub yielded : Tree → Tree
    yielded t = free_yielded (clicks * c.click_size % u32_mod) t

    -- `alloc_pages` finds no block in this tree.
    abbrev pub Fails : Tree → Type 0
    Fails t =
        (got : Got) × (alloc_pages A g clicks flags false t ≡ some (got, t)) × (got.mem ≡ g.no_mem)

    -- A block of the tree; or, only if there is none in it, one of what `free_yielded` makes of the tree;
    -- or, only if there is none in that either, NO_MEM, and the tree is what `free_yielded` made of it.
    abbrev pub Retried : Tree → Got × Tree → Type 0
    Retried t r =
        PagesTaken t r.1 r.0.mem clicks
        ⊎ (Fails t × PagesTaken (yielded t) r.1 r.0.mem clicks)
        ⊎ (Fails t × Fails (yielded t) × (r.0.mem ≡ g.no_mem) × (r.1 ≡ yielded t))

    failed :
        (t : Tree) (r : Got × Tree)
        → alloc_pages A g clicks flags false t ≡ some r
        → (r.0.mem == g.no_mem) ≡ true
        → r.1 ≡ t
        → Fails t
    failed t r e no_block same = (
      r.0,
      subst (λ (u : Tree). alloc_pages A g clicks flags false t ≡ some (r.0, u)) same e,
      eq_of_== _ _ no_block,
    )

    second :
        (t : Tree) (r : Got × Tree)
        → Fails t
        → alloc_pages A g clicks flags false (yielded t) ≡ some r
        → Attempt (yielded t) r
        → Retried t r
    second t r first e (inl h) =
        inr (inr (first, failed (yielded t) r e h.0 h.1, eq_of_== _ _ h.0, h.1))
    second t r first e (inr h) = inr (inl (first, h.1))

    try_again-Retried :
        (t : Tree)
        → Sorted (ranges t)
        → page_at (ranges t) g.no_mem ≡ false
        → page_at (ranges (free_yielded (clicks * c.click_size % u32_mod) t)) g.no_mem ≡ false
        → (r : Got × Tree) × (try_again A c g free_yielded clicks flags
              (alloc_pages A g clicks flags false t)
            ≡ some r)
          × Retried t r
    unfolding try_again
    try_again-Retried t s never never' =
        let a = attempt t s never in
        let b = attempt (free_yielded (clicks * c.click_size % u32_mod) t) (keeps _ t s) never' in
        elim a.2 [
          | inl h ↦ (b.0, rw (a.1, h.0, h.1) b.1, second t b.0 (failed t a.0 a.1 h.0 h.1) b.1 b.2)
          | inr h ↦ (a.0, rw (a.1, h.0), inl h.1)
        ]

    take-paged :
        (vm : Vm Tree) (r : Got × Tree)
        → vm.vm_paged ≡ true
        → try_again A c g free_yielded clicks flags (alloc_pages A g clicks flags false vm.tree)
          ≡ some r
        → take A c g free_yielded clicks flags vm ≡ some (r.0.mem, record vm { tree = r.1 })
    unfolding take with_pages
    take-paged vm r paged e = ground arith

    unaligned :
        (slab : Bool) (n : ℕ) (vm : Vm Tree) (r : ℕ × Vm Tree)
        → n ≡ 0
        → take A c g free_yielded clicks flags vm ≡ some r
        → align_up A c g free_yielded slab n (take A c g free_yielded (add32 clicks n) flags vm)
          ≡ some r
    unfolding align_up
    unaligned slab n vm r off e =
        let exact : add32 clicks 0 ≡ clicks = add32_of_lt clicks 0 (omega arith) ∙ omega arith in
        rw (off, exact, e) (elim (Bool-cases (r.0 == c.no_mem)) [ inl a ↦ rw a | inr a ↦ rw a ])

    -- With `vm_paged` set, PAF_ALIGN64K and PAF_FIRSTBLOCK not, when sys_memset never fails, on at
    -- least one click and less than 2 ^ 32, on ranges in order, which free_yielded keeps in order, with
    -- the page NO_MEM free neither before nor after it, `alloc_mem` does not panic. It takes a block of so
    -- many pages that were free in the tree and are not afterwards; or, only if alloc_pages finds none,
    -- such a block of what free_yielded makes of the tree; or, only if alloc_pages finds none there
    -- either, it returns NO_MEM and leaves the tree as free_yielded made it. In the tree that the block is
    -- taken from all other pages stay as they were, and the ranges in order.
    pub alloc_mem-Retried :
        (slab : Bool) (vm : Vm Tree)
        → vm.vm_paged ≡ true
        → flags.align64k ≡ false
        → Sorted (ranges vm.tree)
        → page_at (ranges vm.tree) g.no_mem ≡ false
        → page_at (ranges (free_yielded (clicks * c.click_size % u32_mod) vm.tree)) g.no_mem ≡ false
        → (r : Got × Tree) × (alloc_mem A c g free_yielded slab clicks flags vm
            ≡ some (r.0.mem, record vm { tree = r.1 }))
          × Retried vm.tree r
    unfolding alloc_mem
    alloc_mem-Retried slab vm paged plain s never never' =
        let a = try_again-Retried vm.tree s never never' in
        (
          a.0,
          unaligned slab (if flags.align64k then 64 * 1024 / c.click_size else 0) vm _
              (ground arith) (take-paged vm a.0 paged a.1),
          a.2,
        )
