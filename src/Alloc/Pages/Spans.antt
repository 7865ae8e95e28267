-- ===== src/Alloc/Pages/Spans.antt =====
-- Lists of page ranges in order: which pages they hold, and what cutting and joining do to them.
use mathlib.Core.List.{reverse-append}
use tcp_and_parallel.Prelude.{
  ℕ, ◌+◌, ◌-◌, ◌≤◌, ◌<◌, ◌≡◌, refl, ◌⊎◌, inl, inr, Bool, true, false, not, ◌&&◌, ◌||◌, [], ◌∷◌,
  ◌++◌, reverse, arith, ◌==◌, if◌then◌else◌, Bool-cases,
}
use tcp_and_parallel.Alloc.Regions.{within, within_apart, keep}
use tcp_and_parallel.Alloc.Avl.{PageRange, Ranges, From, Sorted, Increasing, remove_at, replace_at}

abbrev pub page_at : Ranges → ℕ → Bool
page_at [] a = false
page_at (r ∷ rs) a = within r.addr r.size a || page_at rs a

abbrev pub Member : PageRange → Ranges → Type 0
Member p [] = ⊥
Member p (r ∷ rs) = (r ≡ p) ⊎ Member p rs

-- The `k` pages from `n` and each range have no page in common.
abbrev pub Clear : ℕ → ℕ → Ranges → Type 0
Clear n k [] = Unit
Clear n k (r ∷ rs) = ((r.addr + r.size ≤ n) ⊎ (n + k ≤ r.addr)) × Clear n k rs

pub Sorted-Increasing : (rs : Ranges) → Sorted rs → Increasing rs
Sorted-Increasing [] s = tt
Sorted-Increasing (r ∷ []) s = (tt, tt)
Sorted-Increasing (r ∷ q ∷ rs) s = (omega arith, Sorted-Increasing (q ∷ rs) s.2)

pub Sorted-size : (p : PageRange) (rs : Ranges) → Sorted rs → Member p rs → 0 < p.size
Sorted-size p [] s m = absurd m
Sorted-size p (r ∷ rs) s (inl e) = ground arith
Sorted-size p (r ∷ rs) s (inr m) = Sorted-size p rs s.2 m

Member-From :
    (p : PageRange) (n : ℕ) (rs : Ranges) → From n rs → Sorted rs → Member p rs → n ≤ p.addr
Member-From p n [] f s m = absurd m
Member-From p n (r ∷ rs) f s (inl e) = ground arith
Member-From p n (r ∷ rs) f s (inr m) = omega (arith, Member-From p (r.addr + r.size) rs s.1 s.2 m)

pub page_at-below :
    (n : ℕ) (rs : Ranges) (a : ℕ) → From n rs → Sorted rs → a < n → page_at rs a ≡ false
page_at-below n [] a f s h = refl
page_at-below n (r ∷ rs) a f s h = ground (arith, page_at-below (r.addr + r.size) rs a s.1 s.2)

pub From-more : (n m : ℕ) (rs : Ranges) → n ≤ m → From m rs → From n rs
From-more n m [] h f = tt
From-more n m (r ∷ rs) h f = omega arith

-- The list with the high `k` pages of the range `p` cut off.
abbrev pub cut : PageRange → ℕ → Ranges → Ranges
cut p k rs =
    if p.size == k
    then remove_at p.addr rs
    else replace_at p.addr (record p { size = p.size - k }) rs

module _ (p : PageRange) (k : ℕ) (le : k ≤ p.size) where
  cut_here :
      (r : PageRange) (rs : Ranges)
      → r ≡ p
      → cut p k (r ∷ rs) ≡ (if p.size == k then rs else record p { size = p.size - k } ∷ rs)
  cut_here r rs e = let here : (r.addr == p.addr) ≡ true = ground arith in rw here

  cut_later : (r : PageRange) (rs : Ranges) → r.addr < p.addr → cut p k (r ∷ rs) ≡ r ∷ cut p k rs
  cut_later r rs h =
      let later : (r.addr == p.addr) ≡ false = ground arith in rw later (ground arith)

  cut_bits :
      (rs : Ranges) (q : Bool) (a : ℕ)
      → page_at rs a ≡ q
      → (a < p.addr + p.size → q ≡ false)
      → page_at (if p.size == k then rs else record p { size = p.size - k } ∷ rs) a
        ≡ ((within p.addr p.size a || q) && not (within (p.addr + p.size - k) k a))
  cut_bits rs q a e h = elim (Bool-cases (p.size == k)) [
    | inl all ↦ rw (all, e) (ground arith)
    | inr part ↦ rw (part, e) (ground arith)
  ]

  pub page_at-cut :
      (rs : Ranges) (a : ℕ)
      → Sorted rs
      → Member p rs
      → page_at (cut p k rs) a ≡ (page_at rs a && not (within (p.addr + p.size - k) k a))
  page_at-cut [] a s m = absurd m
  page_at-cut (r ∷ rs) a s (inl e) = rw (cut_here r rs e) (
      let below : (a < p.addr + p.size → page_at rs a ≡ false) =
        λ h. page_at-below (r.addr + r.size) rs a s.1 s.2 (ground arith) in
      rw e (cut_bits rs (page_at rs a) a refl below))
  page_at-cut (r ∷ rs) a s (inr m) =
      let above : r.addr + r.size ≤ p.addr = Member-From p (r.addr + r.size) rs s.1 s.2 m in
      rw (cut_later r rs (omega (arith, s.0)), page_at-cut rs a s.2 m)
        (keep (within r.addr r.size a) (page_at rs a) (within (p.addr + p.size - k) k a)
          (within_apart r.addr r.size (p.addr + p.size - k) k a (omega arith)))

  From-cut : (n : ℕ) (rs : Ranges) → From n rs → Sorted rs → Member p rs → From n (cut p k rs)
  From-cut n [] f s m = absurd m
  From-cut n (r ∷ rs) f s (inl e) = rw (cut_here r rs e) (elim (Bool-cases (p.size == k)) [
    | inl all ↦ rw all (From-more n (r.addr + r.size) rs (omega arith) s.1)
    | inr part ↦ rw part (ground arith)
  ])
  From-cut n (r ∷ rs) f s (inr m) =
      let above : r.addr + r.size ≤ p.addr = Member-From p (r.addr + r.size) rs s.1 s.2 m in
      rw (cut_later r rs (omega (arith, s.0))) f

  pub cut-Sorted : (rs : Ranges) → Sorted rs → Member p rs → Sorted (cut p k rs)
  cut-Sorted [] s m = absurd m
  cut-Sorted (r ∷ rs) s (inl e) = rw (cut_here r rs e) (elim (Bool-cases (p.size == k)) [
    | inl all ↦ rw all s.2
    | inr part ↦ rw part (
      ground arith,
      From-more (p.addr + (p.size - k)) (r.addr + r.size) rs (ground arith) s.1,
      s.2,
    )
  ])
  cut-Sorted (r ∷ rs) s (inr m) =
      let above : r.addr + r.size ≤ p.addr = Member-From p (r.addr + r.size) rs s.1 s.2 m in
      rw (cut_later r rs (omega (arith, s.0)))
        (s.0, From-cut (r.addr + r.size) rs s.1 s.2 m, cut-Sorted rs s.2 m)

-- A member's pages are all held.
pub page_at-Member :
    (p : PageRange) (rs : Ranges) (a : ℕ)
    → Member p rs
    → within p.addr p.size a ≡ true
    → page_at rs a ≡ true
page_at-Member p [] a m w = absurd m
page_at-Member p (r ∷ rs) a (inl e) w = rw (e, w)
page_at-Member p (r ∷ rs) a (inr m) w = ground (arith, page_at-Member p rs a m w)

Member-append : (p : PageRange) (rs qs : Ranges) → Member p (rs ++ qs) → Member p rs ⊎ Member p qs
Member-append p [] qs m = inr m
Member-append p (r ∷ rs) qs (inl e) = inl (inl e)
Member-append p (r ∷ rs) qs (inr m) = elim (Member-append p rs qs m) [
  | inl h ↦ inl (inr h)
  | inr h ↦ inr h
]

pub Member-reverse : (p : PageRange) (rs : Ranges) → Member p (reverse rs) → Member p rs
Member-reverse p [] m = m
Member-reverse p (r ∷ rs) m =
    elim (Member-append p (reverse rs) (r ∷ []) (rw (reverse-append (r ∷ []) rs) at m)) [
      | inl h ↦ inr (Member-reverse p rs h)
      | inr h ↦ elim h [ inl e ↦ inl e | inr m ↦ absurd m ]
    ]
