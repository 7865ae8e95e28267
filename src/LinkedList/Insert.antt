-- ===== src/LinkedList/Insert.antt =====
-- pthreads/linkedlist.c: `insertnode` against the sequence of cells.
use tcp_and_parallel.Prelude.{
  ℕ, ◌≡◌, ◌≢◌, refl, sym, ap, ◌∙◌, Bool, Option, none, some, List, [], ◌∷◌, ◌++◌, if◌then◌else◌,
  update, Bool-cases, ==_self, ==_of_ne, inl, inr, arith,
}
use tcp_and_parallel.LinkedList.{Node, Heap, Run, ok}
use tcp_and_parallel.LinkedList.Cells.{Cell, last_addr, first_addr, node_of, Seg, Absent, Once}
use tcp_and_parallel.LinkedList.Search.{drop_while, NotIn, tail_of}

module _ {M : Type 0} (equal less : M → M → Bool) where
  abbrev pub take_while : (M → Bool) → List (Cell M) → List (Cell M)
  take_while goes [] = []
  take_while goes (c ∷ cs) =
      let rest = take_while goes cs in if goes c.message then c ∷ rest else []

  pub take_while-drop_while :
      (goes : M → Bool) (cs : List (Cell M))
      → take_while goes cs ++ drop_while equal less goes cs ≡ cs
  take_while-drop_while goes [] = refl
  take_while-drop_while goes (c ∷ cs) = elim (Bool-cases (goes c.message)) [
    | inl on ↦ rw on (ap (λ (xs : List (Cell M)). c ∷ xs) (take_while-drop_while goes cs))
    | inr stop ↦ rw stop refl
  ]

  -- `r` is a heap whose list from `head` on is these cells, the last of which is at `end`.
  pub record Holds (cs : List (Cell M)) (r : Run M) : Type 0 where
    pub heap : Heap M
    pub returns : r ≡ ok heap
    pub cells : Seg heap.nodes heap.head none cs
    pub end : heap.end ≡ last_addr cs

  Absent-first : (a : ℕ) (xs ys : List (Cell M)) → Absent a (xs ++ ys) → first_addr ys ≢ some a
  Absent-first a [] [] h = λ e. ground arith
  Absent-first a [] (y ∷ ys) h = λ e. h.0 (sym (addr_inj y.addr a e))
    where
      addr_inj : (x y : ℕ) → some x ≡ some y → x ≡ y
      addr_inj x y e = cc
  Absent-first a (x ∷ xs) ys h = Absent-first a xs ys h.1

  pub NotIn-first : (xs ys : List (Cell M)) → Once (xs ++ ys) → NotIn equal less (first_addr ys) xs
  NotIn-first [] ys h = tt
  NotIn-first (x ∷ xs) ys h = (Absent-first x.addr xs ys h.0, NotIn-first xs ys h.1)

  pub NotIn-tail_of :
      (temp : Option ℕ) (xs : List (Cell M))
      → NotIn equal less temp xs
      → NotIn equal less temp (tail_of equal less xs)
  NotIn-tail_of temp [] h = tt
  NotIn-tail_of temp (x ∷ xs) h = h.1

  pub Absent-append :
      (a : ℕ) (xs ys : List (Cell M)) → Absent a (xs ++ ys) → Absent a xs × Absent a ys
  Absent-append a [] ys h = (tt, h)
  Absent-append a (x ∷ xs) ys h = let r = Absent-append a xs ys h.1 in ((h.0, r.0), r.1)

  pub last-apart : (a : ℕ) (xs : List (Cell M)) (b : Cell M) → Absent a (xs ++ b ∷ []) → a ≢ b.addr
  last-apart a [] b h = h.0
  last-apart a (x ∷ xs) b h = last-apart a xs b h.1

  -- The last cell before `q` is made to point to `q'`.
  pub relink :
      (nodes : ℕ → Option (Node M)) (p q q' : Option ℕ) (xs : List (Cell M)) (b : Cell M)
      → Once (xs ++ b ∷ [])
      → Seg nodes p q (xs ++ b ∷ [])
      → Seg (update nodes b.addr (some (node_of b q'))) p q' (xs ++ b ∷ [])
  relink nodes p q q' [] b once (at, (next, node, rest)) =
      (at, (q', rw (==_self b.addr) refl, refl))
  relink nodes p q q' (x ∷ xs) b once (at, (next, node, rest)) = (
    at,
    (
      next,
      rw (==_of_ne b.addr x.addr (λ e. (last-apart x.addr xs b once.0) (sym e))) node,
      relink nodes next q q' xs b once.1 rest,
    ),
  )

  pub last-node :
      (nodes : ℕ → Option (Node M)) (p q : Option ℕ) (xs : List (Cell M)) (b : Cell M)
      → Seg nodes p q (xs ++ b ∷ [])
      → nodes b.addr ≡ some (node_of b q)
  last-node nodes p q [] b (at, (next, node, rest)) =
      node ∙ ap (λ (n : Option ℕ). some (node_of b n)) rest
  last-node nodes p q (x ∷ xs) b (at, (next, node, rest)) = last-node nodes next q xs b rest

  pub Absent-last :
      (xs : List (Cell M)) (b : Cell M) (ys : List (Cell M))
      → Once ((xs ++ b ∷ []) ++ ys)
      → Absent b.addr ys
  Absent-last [] b ys h = h.0
  Absent-last (x ∷ xs) b ys h = Absent-last xs b ys h.1

  pub Once-front : (xs ys : List (Cell M)) → Once (xs ++ ys) → Once xs
  Once-front [] ys h = tt
  Once-front (x ∷ xs) ys h = ((Absent-append x.addr xs ys h.0).0, Once-front xs ys h.1)

  pub Once-at :
      (xs : List (Cell M)) (b : Cell M) (ys : List (Cell M))
      → Once (xs ++ b ∷ ys)
      → Absent b.addr ys
  Once-at [] b ys h = h.0
  Once-at (x ∷ xs) b ys h = Once-at xs b ys h.1
