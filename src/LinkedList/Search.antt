-- ===== src/LinkedList/Search.antt =====
-- pthreads/linkedlist.c: the loops along the list.
use tcp_and_parallel.Prelude.{
  ℕ, zero, suc, ◌≡◌, ◌≢◌, refl, sym, ap, ◌∙◌, Bool, true, false, not, Option, none, some, List, [],
  ◌∷◌, ◌++◌, if◌then◌else◌, Bool-cases, ==_self, ==_of_ne, inl, inr, arith, length, ◌<◌,
}
use tcp_and_parallel.LinkedList.{Heap, same, step_next, Walk, found, walk, searchname, prev_of}
use tcp_and_parallel.LinkedList.Cells.{Cell, first_addr, Seg}

module _ {M : Type 0} (equal less : M → M → Bool) where
  -- The cells from the first on whose message does not pass.
  abbrev pub drop_while : (M → Bool) → List (Cell M) → List (Cell M)
  drop_while goes [] = []
  drop_while goes (c ∷ cs) =
      let rest = drop_while goes cs in if goes c.message then rest else c ∷ cs

  -- `temp` points to none of the cells.
  abbrev pub NotIn : Option ℕ → List (Cell M) → Type 0
  NotIn temp [] = Unit
  NotIn temp (c ∷ cs) = (temp ≢ some c.addr) × NotIn temp cs

  abbrev pub tail_of : List (Cell M) → List (Cell M)
  tail_of [] = []
  tail_of (c ∷ cs) = cs

  step_next-some : (next : Option ℕ) (a : ℕ) (r : Walk) → next ≡ some a → step_next next r ≡ r
  step_next-some next a r e = rw e refl

  step_next-none : (next : Option ℕ) (r : Walk) → next ≡ none → step_next next r ≡ found none
  step_next-none next r e = rw e refl

  -- On a list that is not empty the loop stops at the first node whose message does not pass, or at
  -- NULL.
  pub walk-drop_while :
      (goes : M → Bool) (k : ℕ) (h : Heap M) (p : Option ℕ) (c : Cell M) (cs : List (Cell M))
      → Seg h.nodes p none (c ∷ cs)
      → length cs < k
      → walk equal less goes k h p ≡ found (first_addr (drop_while goes (c ∷ cs)))
  unfolding walk
  walk-drop_while goes zero h p c cs seg enough = let no : ⊥ = omega arith in elim no [ ]
  walk-drop_while goes (suc k) h p c [] (at, (next, node, rest)) enough =
      rw (at, node)
        (elim (Bool-cases (goes c.message)) [
          | inl on ↦ rw on (step_next-none next _ rest)
          | inr stop ↦ rw stop refl
        ])
  walk-drop_while goes (suc k) h p c (d ∷ ds) (at, (next, node, rest)) enough =
      rw (at, node)
        (elim (Bool-cases (goes c.message)) [
          | inl on ↦ rw on (
              step_next-some next d.addr _ rest.0
              ∙ walk-drop_while goes k h next d ds rest (omega arith))
          | inr stop ↦ rw stop refl
        ])

  pub same_self : (p : Option ℕ) → same p p ≡ true
  same_self none = refl
  same_self (some a) = ==_self a

  pub same_of_ne : (p q : Option ℕ) → p ≢ q → same p q ≡ false
  same_of_ne none none h = let no : ⊥ = h refl in elim no [ ]
  same_of_ne none (some b) h = refl
  same_of_ne (some a) none h = refl
  same_of_ne (some a) (some b) h = ==_of_ne a b (λ e. h (ap (λ (x : ℕ). some x) e))

  -- The loop from a node `p` finds the last cell before `temp`, if no cell after the first is `temp`.
  pub prev_of-last :
      (k : ℕ) (h : Heap M) (p temp : Option ℕ) (xs : List (Cell M)) (b : Cell M)
      → Seg h.nodes p temp (xs ++ b ∷ [])
      → NotIn temp (tail_of (xs ++ b ∷ []))
      → length xs < k
      → prev_of equal less k h temp p ≡ found (some b.addr)
  unfolding prev_of
  prev_of-last zero h p temp xs b seg out enough = let no : ⊥ = omega arith in elim no [ ]
  prev_of-last (suc k) h p temp [] b (at, (next, node, rest)) out enough =
      rw (at, node, rest, same_self temp) refl
  prev_of-last (suc k) h p temp (x ∷ []) b (at, (next, node, rest)) out enough =
      rw (at, node, same_of_ne next temp (λ e. out.0 (sym e ∙ rest.0)))
        (prev_of-last k h next temp [] b rest tt (omega arith))
  prev_of-last (suc k) h p temp (x ∷ y ∷ ys) b (at, (next, node, rest)) out enough =
      rw (at, node, same_of_ne next temp (λ e. out.0 (sym e ∙ rest.0)))
        (prev_of-last k h next temp (y ∷ ys) b rest out.1 (omega arith))

  -- On a list that is not empty, and with fuel for every node, `searchname` from its first node gives
  -- the first node with that name, or NULL where there is none.
  pub searchname-drop_while :
      (k : ℕ) (h : Heap M) (c : Cell M) (cs : List (Cell M)) (name : M)
      → Seg h.nodes h.head none (c ∷ cs)
      → length cs < k
      → searchname equal less k h h.head name
        ≡ found (first_addr (drop_while (λ m. not (equal name m)) (c ∷ cs)))
  unfolding searchname
  searchname-drop_while k h c cs name seg enough =
      walk-drop_while (λ m. not (equal name m)) k h h.head c cs seg enough
