-- ===== src/Matrix/Chain/Appended.antt =====
-- sefdm/algorythms/test.list.161.c: the table that the pointers make up, before and after `table_append`.
use tcp_and_parallel.Prelude.{
  ℕ, ◌<◌, ◌≡◌, ◌≢◌, sym, ap, subst, ◌∙◌, inl, inr, true, false, Bool-cases, List, [], ◌∷◌, ◌++◌,
  map, some, ltb, ◌==◌, update, ==_self, eq_of_==, arith, Gives, Gives-some,
}
use tcp_and_parallel.Matrix.Table.{Node, Table, set_column, table_append}
use tcp_and_parallel.Matrix.Chain.{Cell, Linked, first_or, linked_append}
use tcp_and_parallel.Matrix.Chain.Links.{
  last?, Absent, Once, Absent-snoc, Once-snoc, new_ne_last, last?-snoc, Links, same_nodes, appended,
  appended-node, Links-appended, Links-other, map-snoc,
}

module _ {D : Type 0} where
  -- The columns of the table are those that the pointers make up, from the heads to the tails.
  pub record IsLinked (ps : ℕ → List ℕ) (t : Table D) (l : Linked D) : Type 0 where
    pub links : (c : ℕ) → c < t.columns → Links l.cells (l.head c) (ps c)
    pub tails : (c : ℕ) → c < t.columns → l.tail c ≡ last? (ps c)
    pub once : (c : ℕ) → c < t.columns → Once (ps c)
    pub apart :
        (c d q : ℕ)
        → c < t.columns
        → d < t.columns
        → c ≢ d
        → last? (ps c) ≡ some q
        → Absent q (ps d)
    pub nodes : (c : ℕ) → c < t.columns → map (λ q. (l.cells q).node) (ps c) ≡ t.head c

  -- The addresses of every column once the node at `new` is appended to its column.
  abbrev pub more : (ℕ → List ℕ) → Linked D → ℕ → ℕ → List ℕ
  more ps l new = let col = (l.cells new).node.col in update ps col (ps col ++ new ∷ [])

  module _ (ps : ℕ → List ℕ) (t : Table D) (l : Linked D) (new : ℕ) (h : IsLinked ps t l)
      (inside : (l.cells new).node.col < t.columns)
      (fresh : (c : ℕ) → c < t.columns → Absent new (ps c)) where
    abbrev cells' : ℕ → Cell D
    cells' = appended l.cells (l.tail (l.cells new).node.col) new

    more_other : (c : ℕ) → (l.cells new).node.col == c ≡ false → more ps l new c ≡ ps c
    more_other c other = rw other

    more_self :
        (c : ℕ)
        → (l.cells new).node.col == c ≡ true
        → more ps l new c ≡ ps (l.cells new).node.col ++ new ∷ []
    more_self c here = rw here

    more_apart :
        (c d q : ℕ)
        → c < t.columns
        → d < t.columns
        → c ≢ d
        → last? (more ps l new c) ≡ some q
        → Absent q (more ps l new d)
    more_apart c d q lt lt' ne e = elim (Bool-cases ((l.cells new).node.col == c)) [
      | inl here ↦
          (let last : some new ≡ some q =
              sym (last?-snoc (ps (l.cells new).node.col) new)
              ∙ ap last? (sym (more_self c here))
              ∙ e in
            let at : new ≡ q = ground (arith, last) in
            let other : (l.cells new).node.col == d ≡ false = ground arith in
            subst (λ (x : ℕ). Absent x (more ps l new d)) at (rw other (fresh d lt')))
      | inr other ↦
          (let last : last? (ps c) ≡ some q = ap last? (sym (more_other c other)) ∙ e in
            elim (Bool-cases ((l.cells new).node.col == d)) [
              | inl there ↦ rw there (
                  Absent-snoc q new (ps (l.cells new).node.col)
                    (h.apart c (l.cells new).node.col q lt inside (λ same. ground arith) last)
                    (new_ne_last new q (ps c) (fresh c lt) last))
              | inr other' ↦ rw other' (h.apart c d q lt lt' ne last)
            ])
    ]

    linked_append-IsLinked :
        IsLinked
          (more ps l new)
          (set_column t
            (l.cells new).node.col
            (t.head (l.cells new).node.col ++ (l.cells new).node ∷ []))
          (linked_append l new)
    unfolding linked_append
    linked_append-IsLinked = record {
      links = λ c lt. elim (Bool-cases ((l.cells new).node.col == c)) [
        | inl here ↦
            subst
              (λ (c : ℕ).
                Links cells'
                  (update l.head (l.cells new).node.col
                    (first_or (l.head (l.cells new).node.col) new) c)
                  (more ps l new c))
              (eq_of_== (l.cells new).node.col c here)
              (rw (==_self (l.cells new).node.col) (
                Links-appended l.cells (l.head (l.cells new).node.col)
                  (l.tail (l.cells new).node.col) new (ps (l.cells new).node.col)
                  (h.links (l.cells new).node.col inside) (h.tails (l.cells new).node.col inside)
                  (h.once (l.cells new).node.col inside) (fresh (l.cells new).node.col inside)))
        | inr other ↦ rw other (
            Links-other l.cells (l.tail (l.cells new).node.col) (l.head c) new (ps c) (fresh c lt)
              (λ q e.
                h.apart (l.cells new).node.col c q inside lt (λ same. ground arith)
                  (sym (h.tails (l.cells new).node.col inside) ∙ e))
              (h.links c lt))
      ];
      tails = λ c lt. elim (Bool-cases ((l.cells new).node.col == c)) [
        | inl here ↦
            subst
              (λ (c : ℕ).
                update l.tail (l.cells new).node.col (some new) c ≡ last? (more ps l new c))
              (eq_of_== (l.cells new).node.col c here)
              (rw (==_self (l.cells new).node.col)
                (sym (last?-snoc (ps (l.cells new).node.col) new)))
        | inr other ↦ rw other (h.tails c lt)
      ];
      once = λ c lt. elim (Bool-cases ((l.cells new).node.col == c)) [
        | inl here ↦ rw here (
            Once-snoc new (ps (l.cells new).node.col) (h.once (l.cells new).node.col inside)
              (fresh (l.cells new).node.col inside))
        | inr other ↦ rw other (h.once c lt)
      ];
      apart = more_apart;
      nodes = λ c lt. elim (Bool-cases ((l.cells new).node.col == c)) [
        | inl here ↦ rw here (
            same_nodes cells' l.cells (ps (l.cells new).node.col ++ new ∷ [])
              (appended-node l.cells (l.tail (l.cells new).node.col) new)
            ∙ map-snoc (λ q. (l.cells q).node) (ps (l.cells new).node.col) new
            ∙ ap (λ (xs : List (Node D)). xs ++ (l.cells new).node ∷ [])
                (h.nodes (l.cells new).node.col inside))
        | inr other ↦ rw other (
            same_nodes cells' l.cells (ps c)
              (appended-node l.cells (l.tail (l.cells new).node.col) new)
            ∙ h.nodes c lt)
      ];
    }

    -- When the heads, the links and the tails make up the columns of a table, and a node at an
    -- address in none of them belongs to one of its columns, table_append makes them up the table
    -- with that node at the end of its column and no other change.
    pub table_append-IsLinked :
        Gives
          (table_append t (l.cells new).node)
          (λ t'. IsLinked (more ps l new) t' (linked_append l new))
    unfolding table_append
    table_append-IsLinked =
        let in_table : ltb (l.cells new).node.col t.columns ≡ true = ground arith in
        rw in_table (Gives-some _ linked_append-IsLinked)
