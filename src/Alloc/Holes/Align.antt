-- ===== src/Alloc/Holes/Align.antt =====
-- minix/alloc.c: `alloc_mem` with PAF_ALIGN64K.
use native.Mathlib.Nat.{div-add-mod, mul-mod_right, mod-lt}
use tcp_and_parallel.Prelude.{
  ℕ, ◌+◌, ◌-◌, ◌*◌, ◌/◌, ◌%◌, ◌≤◌, ◌<◌, ◌≡◌, ◌≢◌, sym, ap, ◌∙◌, Bool, true, false, not, ◌&&◌, ◌||◌,
  none, inl, inr, [], ◌∷◌, arith, ◌==◌, leb, u32_mod, add32, add32_of_lt, Bool-cases, length,
  ==_of_ne,
}
use tcp_and_parallel.Alloc.Table.{Table, Config}
use tcp_and_parallel.Alloc.Cells.{Cells}
use tcp_and_parallel.Alloc.Rewrites.{Returns, Returns-bind}
use tcp_and_parallel.Alloc.Spec.{Fits, alloc_base}
use tcp_and_parallel.Alloc.Regions.{within, free_at, has_room}
use tcp_and_parallel.Alloc.Holes.{free_mem, alloc_mem, alloc_loop, align}
use tcp_and_parallel.Alloc.Holes.Bite.{AlwaysOk}
use tcp_and_parallel.Alloc.Holes.Correct.{
  Stands, Frees, Takes, free_mem-Frees, walk, walk-Takes, length-walk-Takes,
}

-- What is missing to the next multiple.
round_up : (n b : ℕ) → 0 < n → (b + (n - b % n)) % n ≡ 0
round_up n b h =
    let e : b + (n - b % n) ≡ n * (b / n + 1) = omega (arith, div-add-mod b n, mod-lt b h) in
    ap (λ (m : ℕ). m % n) e ∙ mul-mod_right n (b / n + 1)

alloc_base-Fits :
    (no_mem k : ℕ) (cs : Cells)
    → has_room k cs ≡ true
    → Fits cs
    → alloc_base no_mem k cs + k < u32_mod
alloc_base-Fits no_mem k [] h f = cc
alloc_base-Fits no_mem k (c ∷ cs) h f = elim (Bool-cases (leb k c.len)) [
  | inl e ↦ rw e (ground arith)
  | inr e ↦ rw e (alloc_base-Fits no_mem k cs (rw e at h) f.1)
]

-- Giving back the front of a block leaves the rest of it taken.
front :
    (b e k a : ℕ) (r : Bool)
    → e ≤ k
    → (within b k a ≡ true → r ≡ true)
    → (within b e a || (r && not (within b k a))) ≡ (r && not (within (b + e) (k - e) a))
front b e k a r h sub = ground arith

front_within : (b e k a : ℕ) → e ≤ k → within (b + e) (k - e) a ≡ true → within b k a ≡ true
front_within b e k a h w = ground arith

front_taken :
    (b e k a : ℕ) (r : Bool) → e ≤ k → within b e a ≡ true → (r && not (within b k a)) ≡ false
front_taken b e k a r h w = ground arith

Frees-Takes :
    (g : Config) (cs ds : Cells) (b e k : ℕ) (t : Table)
    → e ≤ k
    → ((a : ℕ) → within b k a ≡ true → free_at cs a ≡ true)
    → ((a : ℕ) → free_at ds a ≡ (free_at cs a && not (within b k a)))
    → Frees g ds b e t
    → Takes g cs (b + e) (k - e) t
Frees-Takes g cs ds b e k t h was taken f = record {
  holes = f.holes;
  stands = f.stands;
  was_free = λ a w. was a (front_within b e k a h w);
  free = λ a. f.free a ∙ (rw (taken a) (front b e k a (free_at cs a) h (was a)));
}

-- The answer is the first multiple of `n` in the block.
abbrev pub Aligned : Config → Cells → (n b k : ℕ) → ℕ → Table → Type 0
Aligned g cs n b k v t = (v % n ≡ 0) × (b ≤ v) × (v < b + n) × Takes g cs v (b + k - v) t

align-Aligned :
    (g : Config) (t : Table) (cs : Cells) (n b k : ℕ) (w : Takes g cs b k t)
    → 0 < n
    → n ≤ k
    → b + k < u32_mod
    → length w.holes < g.nr_holes
    → Returns (Aligned g cs n b k) (align g n b t)
unfolding align
align-Aligned g t cs n b k w pos le end slots =
    let some_n : (n == 0) ≡ false = ground arith in
    let whole : b + k - b ≡ k = omega arith in
    let e : ℕ = n - b % n in
    let e_le : e ≤ n = omega arith in
    let rest : b + k - (b + e) ≡ k - e = omega arith in
    rw some_n (elim (Bool-cases (b % n == 0)) [
      | inl m ↦ rw m (ground arith, omega arith, omega arith, rw whole w)
      | inr m ↦
          let some_e : 0 < e = omega (arith, mod-lt b pos) in
          let less : e < n = ground arith in
          let sum : add32 b e ≡ b + e = add32_of_lt b e (omega arith) in
          rw (m, sum)
            (Returns-bind _ _ (free_mem g b e t) _
              (free_mem-Frees g t w.holes b e w.stands slots some_e (omega arith)
                (λ a i. w.free a ∙ front_taken b e k a (free_at cs a) (omega arith) i))
              (λ _ u f. (
                round_up n b pos,
                omega arith,
                omega arith,
                rw rest (Frees-Takes g cs w.holes b e k u (omega arith) w.was_free w.free f),
              )))
    ])

-- On a well-formed table, when `sys_memset` does not fail, `n` is the alignment in clicks and not 0, and
-- `n` clicks more than were asked for stay below 2 ^ 32, have a hole with room for them, whose start is
-- not NO_MEM, and a slot is left: with PAF_ALIGN64K the answer is the first multiple of `n` in the first
-- hole with that room, only what lies below it is given back, and the rest of the larger block is taken.
pub alloc_mem-Aligned :
    (g : Config) (s : Table) (cs : Cells) (clicks n : ℕ) (clear : Bool)
    → AlwaysOk g
    → Stands g s cs
    → 64 * 1024 / g.click_size ≡ n
    → 0 < n
    → clicks + n < u32_mod
    → has_room (clicks + n) cs ≡ true
    → alloc_base g.no_mem (clicks + n) cs ≢ g.no_mem
    → length cs < g.nr_holes
    → Returns
        (Aligned g cs n (alloc_base g.no_mem (clicks + n) cs) (clicks + n))
        (alloc_mem g clicks true clear s)
unfolding alloc_mem
alloc_mem-Aligned g s cs clicks n clear good h size pos small room found slots =
    let exact : add32 clicks n ≡ clicks + n = add32_of_lt clicks n small in
    rw (size, exact)
      (Returns-bind _ _ (alloc_loop (g.nr_holes + 1) g (clicks + n) clear none s.hole_head s) _
        (walk g s cs (clicks + n) clear good h)
        (λ v t w.
          let ne : (v == g.no_mem) ≡ false = ==_of_ne v g.no_mem (λ q. found (sym w.0 ∙ q)) in
          rw (ne, w.0)
            (align-Aligned g t cs n (alloc_base g.no_mem (clicks + n) cs) (clicks + n)
              (walk-Takes g s t cs w.1 (clicks + n) h room w.2) pos (omega arith)
              (alloc_base-Fits g.no_mem (clicks + n) cs room h.fits)
              (omega (arith, length-walk-Takes g s t cs w.1 (clicks + n) h room w.2, slots)))))
