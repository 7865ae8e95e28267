-- ===== src/Alloc/Pages/Grown.antt =====
-- minix/alloc.c: what a range that is put into the tree makes of its pages.
use tcp_and_parallel.Prelude.{
  ℕ, ◌+◌, ◌-◌, ◌≤◌, ◌<◌, ◌≡◌, refl, ◌∙◌, inl, inr, Bool, ◌||◌, none, some, [], ◌∷◌, arith, ltb,
  ◌==◌, Bool-cases,
}
use tcp_and_parallel.Alloc.Regions.{within}
use tcp_and_parallel.Alloc.Avl.{PageRange, Ranges, From, Sorted, find_at, insert_sorted, replace_at}
use tcp_and_parallel.Alloc.Pages.Spans.{page_at, Clear}

abbrev pub range : ℕ → ℕ → PageRange
range a n = record { addr = a; size = n }

pub find_at-From :
    (n a : ℕ) (rs : Ranges) (p : PageRange)
    → From n rs
    → Sorted rs
    → find_at a rs ≡ some p
    → (n ≤ a) × (p.addr ≡ a)
find_at-From n a [] p f s e = cc
find_at-From n a (r ∷ rs) p f s e = ground (arith, find_at-From (r.addr + r.size) a rs p s.1 s.2)

pub find_at-below : (n a : ℕ) (rs : Ranges) → From n rs → Sorted rs → a < n → find_at a rs ≡ none
find_at-below n a [] f s h = refl
find_at-below n a (r ∷ rs) f s h = ground (arith, find_at-below (r.addr + r.size) a rs s.1 s.2)

pub find_at-Clear : (n k : ℕ) (rs : Ranges) → 0 < k → Sorted rs → Clear n k rs → find_at n rs ≡ none
find_at-Clear n k [] pos s c = refl
find_at-Clear n k (r ∷ rs) pos s c = ground (arith, find_at-Clear n k rs pos s.2 c.1)

-- The block of `k` pages from `n` has come in, at the range `p`, which starts with it.
pub record Grown (n k : ℕ) (p : PageRange) (rs qs : Ranges) : Type 0 where
  pub found : find_at n qs ≡ some p
  pub page : (a : ℕ) → page_at qs a ≡ (within n k a || page_at rs a)
  pub sorted : Sorted qs
  -- Nothing else than the block comes in front.
  pub from : (m : ℕ) → From m rs → m ≤ n → From m qs

pub two_spans :
    (n k m a : ℕ) (q : Bool)
    → (within n (m + k) a || q) ≡ (within n k a || (within (n + k) m a || q))
two_spans n k m a q = ground arith

pub swap_or : (a b c : Bool) → (a || (b || c)) ≡ (b || (a || c))
swap_or a b c = ground arith

pub replace-Grown :
    (n k : ℕ) (rs : Ranges) (p : PageRange)
    → 0 < k
    → Sorted rs
    → Clear n k rs
    → find_at (n + k) rs ≡ some p
    → Grown n k
        (range (p.addr - k) (p.size + k))
        rs
        (replace_at (n + k) (range (p.addr - k) (p.size + k)) rs)
replace-Grown n k [] p pos s c e = cc
replace-Grown n k (r ∷ rs) p pos s c e = elim (Bool-cases (r.addr == n + k)) [
  | inl here ↦
      let same : r ≡ p = ground arith in
      let start : p.addr - k ≡ n = ground arith in
      rw (here, start)
        (record {
          found = ground arith;
          page = λ a. rw (← same) (two_spans n k r.size a (page_at rs a) ∙ ground arith);
          sorted = (
            omega arith,
            (let end : n + (p.size + k) ≡ r.addr + r.size = ground arith in rw end s.1),
            s.2,
          );
          from = λ m f h. h;
        })
  | inr other ↦
      let later : find_at (n + k) rs ≡ some p = rw other at e in
      let below : r.addr + r.size ≤ n =
        ground (arith, find_at-From (r.addr + r.size) (n + k) rs p s.1 s.2 later) in
      let g = replace-Grown n k rs p pos s.2 c.1 later in
      rw other (record {
        found = ground (arith, g.found);
        page = λ a. rw (g.page a) (swap_or (within r.addr r.size a) (within n k a) (page_at rs a));
        sorted = (s.0, g.from (r.addr + r.size) s.1 below, g.sorted);
        from = λ m f h. f;
      })
]

pub insert-Grown :
    (n k : ℕ) (rs : Ranges)
    → 0 < k
    → Sorted rs
    → Clear n k rs
    → Grown n k (range n k) rs (insert_sorted (range n k) rs)
insert-Grown n k [] pos s c = record {
  found = ground arith;
  page = λ a. refl;
  sorted = (pos, tt, tt);
  from = λ m f h. h;
}
insert-Grown n k (r ∷ rs) pos s c = elim (Bool-cases (ltb n r.addr)) [
  | inl e ↦ rw e (record {
    found = ground arith;
    page = λ a. refl;
    sorted = (pos, ground (arith, s.0), s);
    from = λ m f h. h;
  })
  | inr e ↦
      let g = insert-Grown n k rs pos s.2 c.1 in
      let below : r.addr + r.size ≤ n = ground arith in
      rw e (record {
        found = ground (arith, g.found, s.0);
        page = λ a. rw (g.page a) (swap_or (within r.addr r.size a) (within n k a) (page_at rs a));
        sorted = (s.0, g.from (r.addr + r.size) s.1 below, g.sorted);
        from = λ m f h. f;
      })
]
