-- ===== src/Alloc/Pages/Fused.antt =====
-- minix/alloc.c: neighbours in the tree that become one range.
use tcp_and_parallel.Prelude.{
  ℕ, ◌+◌, ◌≤◌, ◌<◌, ◌≡◌, inl, inr, Bool, true, false, ◌||◌, none, some, [], ◌∷◌, arith, ltb, ◌==◌,
  if◌then◌else◌, Bool-cases, ==_of_ne, ==_self, eq_of_==, lt_of_ltb,
}
use tcp_and_parallel.Alloc.Regions.{within}
use tcp_and_parallel.Alloc.Avl.{
  PageRange, Ranges, From, Above, Sorted, Increasing, find_at, remove_at, replace_at, before,
}
use tcp_and_parallel.Alloc.Pages.Spans.{page_at}
use tcp_and_parallel.Alloc.Pages.Grown.{range, find_at-below}

-- Two neighbours that touch become one.
unfoldable pub fuse : ℕ → PageRange → PageRange → Ranges → Ranges
fuse b p q rs = remove_at b (replace_at p.addr (range p.addr (p.size + q.size)) rs)

unfoldable pub Fused : Ranges → Ranges → Type 0
Fused rs qs =
    ((a : ℕ) → page_at qs a ≡ page_at rs a) × Sorted qs × ((m : ℕ) → From m rs → From m qs)

pub join_spans :
    (n k m a : ℕ) (q : Bool)
    → (within n (k + m) a || q) ≡ (within n k a || (within (n + k) m a || q))
join_spans n k m a q = ground arith

pub before-From :
    (n b : ℕ) (rs : Ranges) (p : PageRange)
    → From n rs
    → Sorted rs
    → before b rs ≡ some p
    → n ≤ p.addr
before-From n b [] p f s e = cc
before-From n b (r ∷ []) p f s e = ground arith
before-From n b (r ∷ x ∷ xs) p f s e = elim (Bool-cases (ltb x.addr b)) [
  | inl more ↦ omega (arith, s.0, before-From (r.addr + r.size) b (x ∷ xs) p s.1 s.2 (rw more at e))
  | inr last ↦ let e' = rw last at e in ground arith
]

pub fuse-Fused_here :
    (b : ℕ) (p q : PageRange) (rs : Ranges)
    → Sorted (p ∷ q ∷ rs)
    → p.addr + p.size ≡ b
    → q.addr ≡ b
    → Fused (p ∷ q ∷ rs) (fuse b p q (p ∷ q ∷ rs))
unfolding fuse Fused
fuse-Fused_here b p q rs s t u =
    let not_p : (p.addr == b) ≡ false = ==_of_ne p.addr b (λ h. omega (arith, s.0)) in
    let is_q : (q.addr == b) ≡ true = ground arith in
    rw (==_self p.addr, not_p, is_q)
      (
        (λ a. rw (join_spans p.addr p.size q.size a (page_at rs a)) (ground arith)),
        (
          omega (arith, s.0),
          (let end : p.addr + (p.size + q.size) ≡ q.addr + q.size = omega arith in rw end s.2.1),
          s.2.2,
        ),
        λ m h. h,
      )

-- The last range below `b`, where `b` starts a range.
pub neighbours :
    (b : ℕ) (r x p q : PageRange) (xs : Ranges)
    → Sorted (r ∷ x ∷ xs)
    → find_at b (r ∷ x ∷ xs) ≡ some q
    → (if ltb r.addr b then some r else none) ≡ some p
    → ltb x.addr b ≡ false
    → (r ≡ p) × (x ≡ q) × (x.addr ≡ b)
neighbours b r x p q xs s f e last = elim (Bool-cases (ltb r.addr b)) [
  | inl lt ↦
      let r_lt : r.addr < b = lt_of_ltb r.addr b lt in
      let not_r : (r.addr == b) ≡ false = ==_of_ne r.addr b (λ h. omega arith) in
      let f' : (if x.addr == b then some x else find_at b xs) ≡ some q = rw not_r at f in
      elim (Bool-cases (x.addr == b)) [
        | inl here ↦ (ground arith, ground arith, eq_of_== x.addr b here)
        | inr other ↦
            let x_gt : b < x.addr = ground arith in
            let gone : find_at b xs ≡ none =
              find_at-below (x.addr + x.size) b xs s.2.1 s.2.2 (omega arith) in
            absurd (ground arith)
      ]
  | inr ge ↦ absurd (ground arith)
]

pub fuse-Fused :
    (b : ℕ) (rs : Ranges) (p q : PageRange)
    → Sorted rs
    → find_at b rs ≡ some q
    → before b rs ≡ some p
    → p.addr + p.size ≡ b
    → Fused rs (fuse b p q rs)
unfolding fuse Fused
fuse-Fused b [] p q s f e t = cc
fuse-Fused b (r ∷ []) p q s f e t = absurd (ground arith)
fuse-Fused b (r ∷ x ∷ xs) p q s f e t = elim (Bool-cases (ltb x.addr b)) [
  | inl more ↦
      let x_lt : x.addr < b = lt_of_ltb x.addr b more in
      let e' : before b (x ∷ xs) ≡ some p = rw more at e in
      let not_r : (r.addr == b) ≡ false = ==_of_ne r.addr b (λ h. omega (arith, s.0, s.1)) in
      let f' : find_at b (x ∷ xs) ≡ some q = rw not_r at f in
      let ih = fuse-Fused b (x ∷ xs) p q s.2 f' e' t in
      let not_p : (r.addr == p.addr) ≡ false =
        ==_of_ne r.addr p.addr
          (λ h. omega (arith, s.0, before-From (r.addr + r.size) b (x ∷ xs) p s.1 s.2 e')) in
      rw (not_p, not_r) ((λ a. rw (ih.0 a)), (s.0, ih.2 (r.addr + r.size) s.1, ih.1), λ m h. h)
  | inr last ↦
      let n = neighbours b r x p q xs s f (rw last at e) last in
      rw (n.0, n.1) (fuse-Fused_here b p q xs (rw (n.0, n.1) at s) t (rw n.1 at n.2))
]

pub Above-replace : (b a m : ℕ) (rs : Ranges) → Above b rs → Above b (replace_at a (range a m) rs)
Above-replace b a m [] h = tt
Above-replace b a m (r ∷ rs) h = ground arith

pub Increasing-replace :
    (a m : ℕ) (rs : Ranges) → Increasing rs → Increasing (replace_at a (range a m) rs)
Increasing-replace a m [] h = tt
Increasing-replace a m (r ∷ rs) h = elim (Bool-cases (r.addr == a)) [
  | inl e ↦ rw e ((let same : r.addr ≡ a = eq_of_== r.addr a e in rw same at h.0), h.1)
  | inr e ↦ rw e (Above-replace r.addr a m rs h.0, Increasing-replace a m rs h.1)
]

pub From-zero : (rs : Ranges) → From 0 rs
From-zero [] = tt
From-zero (r ∷ rs) = omega arith
