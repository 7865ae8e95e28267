-- ===== src/LinkedList/Cells.antt =====
-- The list on the heap as the sequence of its cells.
use tcp_and_parallel.Prelude.{
  ℕ, ◌≡◌, ◌≢◌, refl, sym, subst, Option, none, some, List, [], ◌∷◌, ◌++◌, update, ==_of_ne,
}
use tcp_and_parallel.LinkedList.{Node}

pub record Cell (M : Type 0) : Type 0 where
  pub addr : ℕ
  pub message : M
  pub id : ℕ

some_addr : (a b : ℕ) → some a ≡ some b → a ≡ b
some_addr a b e = cc

module _ {M : Type 0} where
  abbrev pub first_addr : List (Cell M) → Option ℕ
  first_addr [] = none
  first_addr (c ∷ cs) = some c.addr

  abbrev pub node_of : Cell M → Option ℕ → Node M
  node_of c next = record { message = c.message; id = c.id; next = next }

  -- The nodes from `p` on, up to the pointer `q`, are these cells.
  abbrev pub Seg : (ℕ → Option (Node M)) → Option ℕ → Option ℕ → List (Cell M) → Type 0
  Seg nodes p q [] = p ≡ q
  Seg nodes p q (c ∷ cs) =
      (p ≡ some c.addr)
      × ((next : Option ℕ) × (nodes c.addr ≡ some (node_of c next)) × Seg nodes next q cs)

  abbrev pub Absent : ℕ → List (Cell M) → Type 0
  Absent a [] = Unit
  Absent a (c ∷ cs) = (a ≢ c.addr) × Absent a cs

  -- No two cells share an address.
  abbrev pub Once : List (Cell M) → Type 0
  Once [] = Unit
  Once (c ∷ cs) = Absent c.addr cs × Once cs

  -- A write elsewhere leaves the cells.
  pub Seg-update :
      (nodes : ℕ → Option (Node M)) (a : ℕ) (v : Option (Node M)) (p q : Option ℕ)
      (cs : List (Cell M))
      → Absent a cs
      → Seg nodes p q cs
      → Seg (update nodes a v) p q cs
  Seg-update nodes a v p q [] out h = h
  Seg-update nodes a v p q (c ∷ cs) out (at, (next, node, rest)) =
      (at, (next, (rw (==_of_ne a c.addr out.0) node), Seg-update nodes a v next q cs out.1 rest))

  pub Seg-split :
      (nodes : ℕ → Option (Node M)) (p q : Option ℕ) (xs ys : List (Cell M))
      → Seg nodes p q (xs ++ ys)
      → (mid : Option ℕ) × Seg nodes p mid xs × Seg nodes mid q ys
  Seg-split nodes p q [] ys h = (p, refl, h)
  Seg-split nodes p q (x ∷ xs) ys (at, (next, node, rest)) =
      let (mid, l, r) = Seg-split nodes next q xs ys rest in (mid, (at, (next, node, l)), r)

  pub Seg-join :
      (nodes : ℕ → Option (Node M)) (p mid q : Option ℕ) (xs ys : List (Cell M))
      → Seg nodes p mid xs
      → Seg nodes mid q ys
      → Seg nodes p q (xs ++ ys)
  Seg-join nodes p mid q [] ys l r = subst (λ m. Seg nodes m q ys) (sym l) r
  Seg-join nodes p mid q (x ∷ xs) ys (at, (next, node, l)) r =
      (at, (next, node, Seg-join nodes next mid q xs ys l r))

  pub Seg-first :
      (nodes : ℕ → Option (Node M)) (p : Option ℕ) (cs : List (Cell M))
      → Seg nodes p none cs
      → p ≡ first_addr cs
  Seg-first nodes p [] h = h
  Seg-first nodes p (c ∷ cs) h = h.0

  abbrev pub last_addr : List (Cell M) → Option ℕ
  last_addr [] = none
  last_addr (z ∷ []) = some z.addr
  last_addr (z ∷ y ∷ ys) = last_addr (y ∷ ys)

  pub last_addr-append :
      (xs : List (Cell M)) (y : Cell M) (ys : List (Cell M))
      → last_addr (xs ++ y ∷ ys) ≡ last_addr (y ∷ ys)
  last_addr-append [] y ys = refl
  last_addr-append (x ∷ []) y ys = refl
  last_addr-append (x ∷ z ∷ zs) y ys = last_addr-append (z ∷ zs) y ys

  pub Absent-last_addr :
      (a : ℕ) (y : Cell M) (ys : List (Cell M)) → Absent a (y ∷ ys) → last_addr (y ∷ ys) ≢ some a
  Absent-last_addr a y [] out = λ e. out.0 (sym (some_addr y.addr a e))
  Absent-last_addr a y (z ∷ zs) out = Absent-last_addr a z zs out.1
