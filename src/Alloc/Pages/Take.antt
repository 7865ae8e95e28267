-- ===== src/Alloc/Pages/Take.antt =====
-- minix/alloc.c: `alloc_pages`.
use tcp_and_parallel.Prelude.{
  ℕ, ◌+◌, ◌-◌, ◌*◌, ◌≤◌, ◌<◌, ◌≡◌, refl, ◌⊎◌, inl, inr, Bool, true, false, not, ◌&&◌, ◌||◌, none,
  some, reverse, arith, ltb, ◌==◌, if◌then◌else◌, Bool-cases,
}
use tcp_and_parallel.Alloc.Regions.{within}
use tcp_and_parallel.Alloc.Avl.{PageRange, Sorted, AddrAvl}
use tcp_and_parallel.Alloc.Pages.{
  Flags, PageConfig, Found, block, refused, missing, aborted, Got, find_block, cut_range,
  take_block, alloc_found, alloc_pages, walk_order,
}
use tcp_and_parallel.Alloc.Pages.Spans.{
  page_at, Member, Sorted-Increasing, Sorted-size, cut, page_at-cut, cut-Sorted, page_at-Member,
  Member-reverse,
}
use tcp_and_parallel.Alloc.Pages.Located.{Located, find_block-Located}

module _ (A : AddrAvl) (c : PageConfig) (good : (a n : ℕ) → c.memset_ok a n ≡ true) where
  open A use {Tree, ranges, ranges-remove, ranges-write}

  -- A block of `k` pages from `mem` was taken: all of what was asked for, or with PAF_FIRSTBLOCK
  -- perhaps less.
  pub record Taken (flags : Flags) (pages : ℕ) (len : Bool) (t : Tree) (g : Got) (u : Tree)
      : Type 0 where
    pub count : ℕ
    pub written : g.len ≡ (if len then some count else none)
    pub asked : (count ≡ pages) ⊎ (flags.firstblock ≡ true) × (count < pages)
    pub nonempty : 0 < pages → 0 < count
    pub was_free : (a : ℕ) → within g.mem count a ≡ true → page_at (ranges t) a ≡ true
    pub free : (a : ℕ) → page_at (ranges u) a ≡ (page_at (ranges t) a && not (within g.mem count a))
    pub sorted : Sorted (ranges u)

  cut_range-cut :
      (p : PageRange) (k : ℕ) (t : Tree)
      → Sorted (ranges t)
      → ranges (cut_range A c p k t) ≡ cut p k (ranges t)
  unfolding cut_range
  cut_range-cut p k t s = elim (Bool-cases (p.size == k)) [
    | inl e ↦ rw e (ranges-remove p.addr t (Sorted-Increasing (ranges t) s))
    | inr e ↦ rw e (ranges-write p.addr _ t (Sorted-Increasing (ranges t) s))
  ]

  take_block-Taken :
      (flags : Flags) (pages k : ℕ) (len : Bool) (p : PageRange) (t : Tree)
      → Sorted (ranges t)
      → Member p (ranges t)
      → k ≤ p.size
      → (k ≡ pages) ⊎ (flags.firstblock ≡ true) × (k < pages)
      → (0 < pages → 0 < k)
      → (r : Got × Tree) × (take_block A c flags k len p t ≡ some r)
        × Taken flags pages len t r.0 r.1
  unfolding take_block
  take_block-Taken flags pages k len p t s m le asked nonempty =
      let big : ltb p.size k ≡ false = ground arith in
      let zeroed : (flags.clear
            && not (c.memset_ok (c.click_size * (p.addr + p.size - k)) (c.page_size * k)))
          ≡ false =
        let w : c.memset_ok (c.click_size * (p.addr + p.size - k)) (c.page_size * k) ≡ true =
          good _ _ in
        ground arith in
      (
        (
          record { mem = p.addr + p.size - k; len = if len then some k else none },
          cut_range A c p k t,
        ),
        rw (big, zeroed),
        record {
          count = k;
          written = refl;
          asked = asked;
          nonempty = nonempty;
          was_free = λ a w. page_at-Member p (ranges t) a m (ground arith);
          free = λ a. rw (cut_range-cut p k t s) (page_at-cut p k le (ranges t) a s m);
          sorted = rw (cut_range-cut p k t s) (cut-Sorted p k le (ranges t) s m);
        },
      )

  -- Either nothing is taken and the answer is NO_MEM, or a block is.
  abbrev pub Outcome : Flags → ℕ → Bool → Tree → Got → Tree → Type 0
  Outcome flags pages len t g u = (g.mem ≡ c.no_mem) × (u ≡ t) ⊎ Taken flags pages len t g u

  alloc_found-Outcome :
      (flags : Flags) (pages : ℕ) (len : Bool) (f : Found) (t : Tree)
      → (flags.firstblock && not len) ≡ false
      → Sorted (ranges t)
      → Located flags pages (ranges t) f
      → (r : Got × Tree) × (alloc_found A c flags pages len f t ≡ some r)
        × Outcome flags pages len t r.0 r.1
  unfolding alloc_found
  alloc_found-Outcome flags pages len aborted t given s l = absurd l
  alloc_found-Outcome flags pages len refused t given s l = (_, refl, inl (refl, refl))
  alloc_found-Outcome flags pages len missing t given s l = (_, refl, inl (refl, refl))
  alloc_found-Outcome flags pages len (block pr) t given s l =
      elim (Bool-cases (flags.firstblock && ltb pr.size pages)) [
        | inl e ↦
            let r =
              take_block-Taken flags pages pr.size len pr t s l.0 (omega arith)
                (inr (ground arith, ground arith)) (λ h. Sorted-size pr (ranges t) s l.0) in
            (r.0, rw (given, e) r.1, inr r.2)
        | inr e ↦
            let r =
              take_block-Taken flags pages pages len pr t s l.0 (ground arith) (inl refl)
                (λ h. h) in
            (r.0, rw (given, e) r.1, inr r.2)
      ]

  walk_order-Located :
      (flags : Flags) (pages : ℕ) (t : Tree) (b : Bool) (f : Found)
      → Located flags pages (if b then ranges t else reverse (ranges t)) f
      → Located flags pages (ranges t) f
  walk_order-Located flags pages t b aborted l = l
  walk_order-Located flags pages t b refused l = l
  walk_order-Located flags pages t b missing l = l
  walk_order-Located flags pages t true (block pr) l = l
  walk_order-Located flags pages t false (block pr) l = (Member-reverse pr (ranges t) l.0, l.1)

  walk_order-size :
      (t : Tree) (b : Bool)
      → Sorted (ranges t)
      → (p : PageRange) → Member p (if b then ranges t else reverse (ranges t))
      → 0 < p.size
  walk_order-size t true s p m = Sorted-size p (ranges t) s m
  walk_order-size t false s p m = Sorted-size p (ranges t) s (Member-reverse p (ranges t) m)

  -- When sys_memset never fails, on ranges in order, and with a place for the length if
  -- PAF_FIRSTBLOCK asks for one, no assertion fails and there is no panic. Either the answer is NO_MEM
  -- and the tree stays, or a block of as many pages as were asked for, with PAF_FIRSTBLOCK perhaps
  -- fewer, was free and is not afterwards; all other pages are as they were, and the ranges are in
  -- order.
  pub alloc_pages-Outcome :
      (flags : Flags) (pages : ℕ) (len : Bool) (t : Tree)
      → (flags.firstblock && not len) ≡ false
      → Sorted (ranges t)
      → (r : Got × Tree) × (alloc_pages A c pages flags len t ≡ some r)
        × Outcome flags pages len t r.0 r.1
  unfolding alloc_pages
  alloc_pages-Outcome flags pages len t given s =
      let lower = flags.lower16mb || flags.lower1mb in
      alloc_found-Outcome flags pages len (find_block c flags pages (walk_order A c flags t)) t
        given s
        (walk_order-Located flags pages t lower (find_block c flags pages (walk_order A c flags t))
          (find_block-Located c flags pages (walk_order A c flags t) (walk_order-size t lower s)))
