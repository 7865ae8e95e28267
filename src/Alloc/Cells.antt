-- ===== src/Alloc/Cells.antt =====
-- What the hole table of minix/alloc.c stands for: the slots on a list in their order, and how
-- often a slot is on it.
use tcp_and_parallel.Prelude.{
  ℕ, zero, suc, ◌+◌, ◌≤◌, ◌<◌, ◌≡◌, refl, List, [], ◌∷◌, arith, ltb, ◌==◌, if◌then◌else◌, length,
}

pub record Cell : Type 0 where
  pub slot : ℕ
  pub base : ℕ
  pub len : ℕ

abbrev pub Cells : Type 0
Cells = List Cell

-- How often a slot is on a list.
abbrev pub times : ℕ → Cells → ℕ
times a [] = 0
times a (c ∷ cs) = (if c.slot == a then 1 else 0) + times a cs

-- Every slot below `nr` is on exactly one of the two lists, once, and no other slot is on either.
abbrev pub Once : ℕ → Cells → Cells → Type 0
Once nr cs fs = (a : ℕ) → times a cs + times a fs ≡ (if ltb a nr then 1 else 0)

below : ℕ → Cells → ℕ
below n [] = 0
below n (c ∷ cs) = (if ltb c.slot n then 1 else 0) + below n cs

below-zero : (cs : Cells) → below 0 cs ≡ 0
unfolding below
below-zero [] = refl
below-zero (c ∷ cs) = ground (arith, below-zero cs)

below-suc : (n : ℕ) (cs : Cells) → below (suc n) cs ≡ below n cs + times n cs
unfolding below
below-suc n [] = omega arith
below-suc n (c ∷ cs) = ground (arith, below-suc n cs)

below-le-length : (n : ℕ) (cs : Cells) → below n cs ≤ length cs
unfolding below
below-le-length n [] = omega arith
below-le-length n (c ∷ cs) = ground (arith, below-le-length n cs)

times_pos : (c : Cell) (cs : Cells) → 0 < times c.slot (c ∷ cs)
times_pos c cs = ground arith

-- With every slot of `cs` below `n`, all are counted.
below-eq-length : (n : ℕ) (cs : Cells) → ((a : ℕ) → n ≤ a → times a cs ≡ 0) → below n cs ≡ length cs
unfolding below
below-eq-length n [] h = refl
below-eq-length n (c ∷ cs) h =
    ground (arith, h c.slot, below-eq-length n cs (λ a k. omega (arith, h a k)))

below_both : (n nr : ℕ) (cs fs : Cells) → Once nr cs fs → n ≤ nr → below n cs + below n fs ≡ n
below_both zero nr cs fs h k = omega (arith, below-zero cs, below-zero fs)
below_both (suc n) nr cs fs h k =
    ground (arith, below-suc n cs, below-suc n fs, h n, below_both n nr cs fs h)

-- So the two lists have `nr` entries together, and a walk along either has that much fuel at most.
pub length-Once : (nr : ℕ) (cs fs : Cells) → Once nr cs fs → length cs + length fs ≡ nr
length-Once nr cs fs h = omega (
  arith,
  below_both nr nr cs fs h,
  below-eq-length nr cs (λ a k. ground (arith, h a)),
  below-eq-length nr fs (λ a k. ground (arith, h a)),
)
