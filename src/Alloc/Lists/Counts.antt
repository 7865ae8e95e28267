-- ===== src/Alloc/Lists/Counts.antt =====
-- minix/alloc.c: how often a page is free, held or yielded.
use tcp_and_parallel.Prelude.{
  ℕ, ◌+◌, ◌≤◌, ◌<◌, ◌≡◌, refl, ◌⊎◌, Bool, true, false, ◌&&◌, ◌||◌, not, [], ◌∷◌, arith,
}
use tcp_and_parallel.Alloc.Avl.{Sorted, Ranges}
use tcp_and_parallel.Alloc.Regions.{within}
use tcp_and_parallel.Alloc.Pages.Spans.{page_at, Clear}

abbrev pub one_if : Bool → ℕ
one_if true = 1
one_if false = 0

-- A page that leaves the free ones for another place, and one that comes back.
pub taken_once :
    (p w p' : Bool) (y t v : ℕ)
    → p' ≡ (p && not w)
    → (w ≡ true → p ≡ true)
    → one_if p + y + t ≡ v
    → one_if p' + y + (one_if w + t) ≡ v
taken_once true true p' y t v e h k = rw e (omega arith)
taken_once true false p' y t v e h k = rw e (omega arith)
taken_once false true p' y t v e h k = absurd (ground (arith, h refl))
taken_once false false p' y t v e h k = rw e (omega arith)

pub given_once :
    (p w p' : Bool) (y t v : ℕ)
    → p' ≡ (w || p)
    → one_if p + y + (one_if w + t) ≡ v
    → v ≤ 1
    → one_if p' + y + t ≡ v
given_once true true p' y t v e k le = absurd (omega arith)
given_once true false p' y t v e k le = rw e (omega arith)
given_once false true p' y t v e k le = rw e (omega arith)
given_once false false p' y t v e k le = rw e (omega arith)

pub not_free :
    (p w : Bool) (y t v : ℕ) → one_if p + y + (one_if w + t) ≡ v → v ≤ 1 → w ≡ true → p ≡ false
not_free false w y t v k le e = refl
not_free true true y t v k le e = absurd (omega arith)
not_free true false y t v k le e = absurd (ground arith)

pub or_false : (x y : Bool) → (x || y) ≡ false → (x ≡ false) × (y ≡ false)
or_false true y e = absurd (ground arith)
or_false false y e = (refl, e)

pub apart_or :
    (b n c k : ℕ)
    → 0 < n
    → 0 < k
    → ((a : ℕ) → within b n a ≡ true → within c k a ≡ false)
    → (c + k ≤ b) ⊎ (b + n ≤ c)
apart_or b n c k pos pos' h = ground (arith, h b, h c)

-- Pages of which none is free are apart from every range.
pub Clear-apart :
    (b n : ℕ) (rs : Ranges)
    → 0 < n
    → Sorted rs
    → ((a : ℕ) → within b n a ≡ true → page_at rs a ≡ false)
    → Clear b n rs
Clear-apart b n [] pos s h = tt
Clear-apart b n (r ∷ rs) pos s h = (
  apart_or b n r.addr r.size pos s.0
      (λ a w. (or_false (within r.addr r.size a) (page_at rs a) (h a w)).0),
  Clear-apart b n rs pos s.2 (λ a w. (or_false (within r.addr r.size a) (page_at rs a) (h a w)).1),
)
