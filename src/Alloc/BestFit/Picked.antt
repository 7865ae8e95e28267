-- ===== src/Alloc/BestFit/Picked.antt =====
-- minix/3.1.7-bestfit-alloc.c: the hole that `alloc_mem` uses is the smallest that is big enough.
use tcp_and_parallel.Prelude.{
  ℕ, zero, suc, ◌+◌, ◌-◌, ◌*◌, ◌/◌, ◌≤◌, ◌<◌, ◌≡◌, refl, sym, subst, ◌⊎◌, inl, inr, Bool, true,
  false, ◌&&◌, ◌||◌, Bool-cases, Option, none, some, [], ◌∷◌, ltb, ◌==◌, if◌then◌else◌, update,
  length, arith, add32, sub32,
}
use tcp_and_parallel.Alloc.Table.{Ptr, Hole, Table, Config, Run, ok, fault}
use tcp_and_parallel.Alloc.Cells.{Cell, Cells}
use tcp_and_parallel.Alloc.Chain.{Chain}
use tcp_and_parallel.Alloc.BestFit.{no_remainder, int_half, best_loop, use_best, alloc_mem}

abbrev better : ℕ → Cell → Option Cell → Bool
better n c none = true
better n c (some b) = ltb (c.len - n) (b.len - n)

-- The loop on the cells.
abbrev pick : ℕ → Option Cell → Cells → Option Cell
pick n best [] = best
pick n best (c ∷ cs) =
    let with_c = pick n (some c) cs in
    let without_c = pick n best cs in
    if c.len == n then some c else if ltb n c.len && better n c best then with_c else without_c

abbrev remainder_of : ℕ → Option Cell → ℕ
remainder_of n none = no_remainder
remainder_of n (some b) = b.len - n

abbrev pointer_of : Option Cell → Ptr
pointer_of none = none
pointer_of (some b) = some b.slot

-- No hole takes half of the 32-bit clicks.
abbrev pub AllShort : Cells → Type 0
AllShort [] = Unit
AllShort (c ∷ cs) = (c.len < int_half) × AllShort cs

abbrev Short : Option Cell → Type 0
Short none = Unit
Short (some b) = b.len < int_half

better_lem :
    (n : ℕ) (c : Cell) (best : Option Cell)
    → Short best
    → (ltb (c.len - n) (remainder_of n best) || remainder_of n best == no_remainder)
      ≡ better n c best
better_lem n c none short = ground arith
better_lem n c (some b) short = ground arith

best_loop-pick :
    (k n : ℕ) (s : Table) (p : Ptr) (best : Option Cell) (cs : Cells)
    → Chain s.hole p cs
    → AllShort cs
    → Short best
    → length cs < k
    → best_loop k n (remainder_of n best) (pointer_of best) p s
      ≡ ok (remainder_of n (pick n best cs), pointer_of (pick n best cs)) s
unfolding best_loop
best_loop-pick zero n s p best cs chain all short enough = absurd (omega arith)
best_loop-pick (suc k) n s p best [] chain all short enough = rw chain refl
best_loop-pick (suc k) n s p best (c ∷ cs) (at, base, len, rest) all short enough =
    elim (Bool-cases (c.len == n)) [
      | inl same ↦
          (let none_left : c.len - n ≡ 0 = ground arith in rw (at, len, same, none_left) refl)
      | inr other ↦ elim (Bool-cases (ltb n c.len && better n c best)) [
        | inl closer ↦
            (let test = better_lem n c best short in
              rw (at, len, other, test, closer)
                (best_loop-pick k n s (s.hole c.slot).h_next (some c) cs rest all.1 all.0
                  (omega arith)))
        | inr farther ↦
            (let test = better_lem n c best short in
              rw (at, len, other, test, farther)
                (best_loop-pick k n s (s.hole c.slot).h_next best cs rest all.1 short
                  (omega arith)))
      ]
    ]

-- A cell of the list.
abbrev pub Among : Cell → Cells → Type 0
Among c [] = ⊥
Among c (d ∷ ds) = (c ≡ d) ⊎ Among c ds

-- No hole that is big enough for `n` is smaller than `m`.
abbrev pub AllAtLeast : ℕ → ℕ → Cells → Type 0
AllAtLeast n m [] = Unit
AllAtLeast n m (d ∷ ds) = ((d.len < n) ⊎ (m ≤ d.len)) × AllAtLeast n m ds

abbrev pub AllSmaller : ℕ → Cells → Type 0
AllSmaller n [] = Unit
AllSmaller n (d ∷ ds) = (d.len < n) × AllSmaller n ds

AllAtLeast-same : (n : ℕ) (ds : Cells) → AllAtLeast n n ds
AllAtLeast-same n [] = tt
AllAtLeast-same n (d ∷ ds) = (ground arith, AllAtLeast-same n ds)

-- What the loop makes of a hole that is big enough.
record Picks (n : ℕ) (b : Cell) (cs : Cells) : Type 0 where
  cell : Cell
  picked : pick n (some b) cs ≡ some cell
  among : (cell ≡ b) ⊎ Among cell cs
  enough : n ≤ cell.len
  closer : cell.len ≤ b.len
  least : AllAtLeast n cell.len cs

not_closer :
    (n : ℕ) (b c d : Cell)
    → c.len == n ≡ false
    → (ltb n c.len && better n c (some b)) ≡ false
    → d.len ≤ b.len
    → (c.len < n) ⊎ (d.len ≤ c.len)
not_closer n b c d other farther closer = elim (Bool-cases (ltb c.len n)) [
  | inl small ↦ inl (ground arith)
  | inr big ↦ inr (ground arith)
]

pick-Picks : (n : ℕ) (b : Cell) (cs : Cells) → n ≤ b.len → Picks n b cs
pick-Picks n b [] enough = record {
  cell = b;
  picked = refl;
  among = inl refl;
  enough = enough;
  closer = omega arith;
  least = tt;
}
pick-Picks n b (c ∷ cs) enough = elim (Bool-cases (c.len == n)) [
  | inl same ↦ record {
    cell = c;
    picked = rw same refl;
    among = inr (inl refl);
    enough = ground arith;
    closer = ground arith;
    least = (
      inr (omega arith),
      let at : n ≡ c.len = ground arith in
          subst (λ (m : ℕ). AllAtLeast n m cs) at (AllAtLeast-same n cs),
    );
  }
  | inr other ↦ elim (Bool-cases (ltb n c.len && better n c (some b))) [
    | inl closer ↦
        (let r = pick-Picks n c cs (ground arith) in
          record {
            cell = r.cell;
            picked = rw (other, closer) r.picked;
            among = inr r.among;
            enough = r.enough;
            closer = ground (arith, r.closer);
            least = (inr r.closer, r.least);
          })
    | inr farther ↦
        (let r = pick-Picks n b cs enough in
          record {
            cell = r.cell;
            picked = rw (other, farther) r.picked;
            among = elim r.among [ inl e ↦ inl e | inr a ↦ inr (inr a) ];
            enough = r.enough;
            closer = r.closer;
            least = (not_closer n b c r.cell other farther r.closer, r.least);
          })
  ]
]

-- The smallest that is big enough.
record BestOf (n : ℕ) (cs : Cells) : Type 0 where
  cell : Cell
  picked : pick n none cs ≡ some cell
  among : Among cell cs
  enough : n ≤ cell.len
  least : AllAtLeast n cell.len cs

pick-BestOf : (n : ℕ) (cs : Cells) → ((pick n none cs ≡ none) × AllSmaller n cs) ⊎ BestOf n cs
pick-BestOf n [] = inl (refl, tt)
pick-BestOf n (c ∷ cs) = elim (Bool-cases (c.len == n)) [
  | inl same ↦ inr (record {
    cell = c;
    picked = rw same refl;
    among = inl refl;
    enough = ground arith;
    least = (
      inr (omega arith),
      let at : n ≡ c.len = ground arith in
          subst (λ (m : ℕ). AllAtLeast n m cs) at (AllAtLeast-same n cs),
    );
  })
  | inr other ↦ elim (Bool-cases (ltb n c.len)) [
    | inl bigger ↦
        (let r = pick-Picks n c cs (ground arith) in
          inr (record {
            cell = r.cell;
            picked = rw (other, bigger) r.picked;
            among = r.among;
            enough = r.enough;
            least = (inr r.closer, r.least);
          }))
    | inr smaller ↦ elim (pick-BestOf n cs) [
      | inl (e, all) ↦ inl (rw (other, smaller) e, (ground arith, all))
      | inr r ↦ inr (record {
        cell = r.cell;
        picked = rw (other, smaller) r.picked;
        among = inr r.among;
        enough = r.enough;
        least = (inl (ground arith), r.least);
      })
    ]
  ]
]

Chain-Among :
    (f : ℕ → Hole) (p : Ptr) (c : Cell) (cs : Cells)
    → Chain f p cs
    → Among c cs
    → ((f c.slot).h_base ≡ c.base) × ((f c.slot).h_len ≡ c.len)
Chain-Among f p c [] chain among = elim among [ ]
Chain-Among f p c (d ∷ ds) (at, base, len, rest) (inl e) =
    subst (λ (x : Cell). ((f x.slot).h_base ≡ x.base) × ((f x.slot).h_len ≡ x.len)) (sym e)
      (base, len)
Chain-Among f p c (d ∷ ds) (at, base, len, rest) (inr later) =
    Chain-Among f (f d.slot).h_next c ds rest later

AllShort-Among : (c : Cell) (cs : Cells) → AllShort cs → Among c cs → c.len < int_half
AllShort-Among c [] all among = elim among [ ]
AllShort-Among c (d ∷ ds) all (inl e) = subst (λ (x : Cell). x.len < int_half) (sym e) all.0
AllShort-Among c (d ∷ ds) all (inr later) = AllShort-Among c ds all.1 later

-- What `alloc_mem` of `n` clicks makes of a table: the base of the smallest hole that is big enough,
-- which is then shorter, or else behaviour that is not defined.
pub data Fitted (n : ℕ) (s : Table) (cs : Cells) : Run ℕ → Type 0 where
  best :
      (c : Cell)
      → Among c cs
      → n ≤ c.len
      → AllAtLeast n c.len cs
      → Fitted n s cs (
          ok c.base (record s {
            hole =
                update s.hole c.slot
                  (record (s.hole c.slot) { h_base = add32 c.base n; h_len = sub32 c.len n });
          }))
  undefined : AllSmaller n cs → Fitted n s cs fault

use_best-Fitted :
    (n : ℕ) (s : Table) (p : Ptr) (cs : Cells)
    → Chain s.hole p cs
    → AllShort cs
    → Fitted n s cs (use_best n (remainder_of n (pick n none cs), pointer_of (pick n none cs)) s)
unfolding use_best
use_best-Fitted n s p cs chain all = elim (pick-BestOf n cs) [
  | inl (e, small) ↦ rw e (undefined small)
  | inr r ↦
      (let (base, len) = Chain-Among s.hole p r.cell cs chain r.among in
        let short : ltb (r.cell.len - n) int_half ≡ true =
          (let below = AllShort-Among r.cell cs all r.among in ground arith) in
        rw (r.picked, short, base, len) (best r.cell r.among r.enough r.least))
]

-- On a list of holes that is no longer than the table, none of which takes 2 ^ 31 clicks, alloc_mem
-- with the best fit ends. If a hole is big enough it returns the base of one of those than which no
-- other one is smaller; this one then begins behind the block and is as much shorter, and stays on the
-- list, also when nothing of it is left. If no hole is big enough its behaviour is not defined.
pub alloc_mem-Fitted :
    (g : Config) (clicks : ℕ) (align64k : Bool) (s : Table) (cs : Cells)
    → Chain s.hole s.hole_head cs
    → AllShort cs
    → length cs ≤ g.nr_holes
    → Fitted
        (add32 clicks (if align64k then 64 * 1024 / g.click_size else 0))
        s
        cs
        (alloc_mem g clicks align64k s)
unfolding alloc_mem
alloc_mem-Fitted g clicks align64k s cs chain all enough =
    let n = add32 clicks (if align64k then 64 * 1024 / g.click_size else 0) in
    rw (best_loop-pick (g.nr_holes + 1) n s s.hole_head none cs chain all tt (omega arith))
      (use_best-Fitted n s s.hole_head cs chain all)
