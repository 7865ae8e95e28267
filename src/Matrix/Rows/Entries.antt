-- ===== src/Matrix/Rows/Entries.antt =====
-- sefdm/algorythms/test.list.161.c: what the copies of a row and of a column hold, and arrays whose
-- nodes are changed one after the other.
use tcp_and_parallel.Prelude.{
  ℕ, zero, suc, ◌+◌, ◌≤◌, ◌<◌, ◌≡◌, refl, sym, ap, ◌∙◌, inl, inr, Bool-cases, List, ◌∷◌, some, ltb,
  leb, ◌&&◌, ◌==◌, if◌then◌else◌, update, loop, Gives, Gives-some, Gives-for, arith,
}
use tcp_and_parallel.Matrix.Table.{Doubles, Node, Table}
use tcp_and_parallel.Matrix.Spec.{Value, node_of, column, column_ext, IsMatrix, all_columns}
use tcp_and_parallel.Matrix.Rows.{
  find_row, keep_or_copy, copy_row_from_table, replace_row, copy_row_to_table, place_nodes,
  get_column_from_table, mult_node, mult_array_by_node, divide_node, divide_array_by_double,
}

module _ {D : Type 0} where
  -- The nodes before `k` are those of `g`, and the others those of `a`.
  abbrev pub Overwritten : (k : ℕ) → (g a : ℕ → Node D) → (ℕ → Node D) → Type 0
  Overwritten k g a b = (i : ℕ) → b i ≡ (if ltb i k then g i else a i)

  Overwritten-update :
      (k : ℕ) (g a b : ℕ → Node D)
      → Overwritten k g a b
      → Overwritten (k + 1) g a (update b k (g k))
  Overwritten-update k g a b h i = ground (arith, h i)

  find_row-column :
      (k i j r : ℕ) (f : ℕ → Value D)
      → i ≤ r
      → r < i + k
      → find_row r (column k i j f) ≡ some (node_of (f r) r j)
  unfolding find_row
  find_row-column zero i j r f from to = absurd (omega arith)
  find_row-column (suc k) i j r f from to = elim (Bool-cases (i == r)) [
    | inl here ↦ ground arith
    | inr other ↦ rw other (find_row-column k (i + 1) j r f (ground arith) (omega arith))
  ]

  replace_row-column :
      (k i j r : ℕ) (v : Value D) (f : ℕ → Value D)
      → i ≤ r
      → r < i + k
      → replace_row r (node_of v r j) (column k i j f)
        ≡ column k i j (λ p. if p == r then v else f p)
  unfolding replace_row
  replace_row-column zero i j r v f from to = absurd (omega arith)
  replace_row-column (suc k) i j r v f from to = elim (Bool-cases (i == r)) [
    | inl here ↦
        (let at : i ≡ r = ground arith in
          let rest : column k (i + 1) j f ≡ column k (i + 1) j (λ p. if p == r then v else f p) =
            column_ext k (i + 1) j f _ (λ p from' to'. ground arith) in
          rw here (
            ap (λ (x : ℕ). node_of v x j ∷ column k (i + 1) j f) (sym at)
            ∙ ap (λ (xs : List (Node D)). node_of v i j ∷ xs) rest))
    | inr other ↦ rw other (
        ap (λ (xs : List (Node D)). node_of (f i) i j ∷ xs)
          (replace_row-column k (i + 1) j r v f (ground arith) (omega arith)))
  ]

  place_nodes-column :
      (k i j : ℕ) (f : ℕ → Value D) (a : ℕ → Node D) (p : ℕ)
      → place_nodes (column k i j f) a p
        ≡ (if leb i p && ltb p (i + k) then node_of (f p) p j else a p)
  unfolding place_nodes
  place_nodes-column zero i j f a p = ground arith
  place_nodes-column (suc k) i j f a p =
      place_nodes-column k (i + 1) j f (update a i (node_of (f i) i j)) p
      ∙ elim (Bool-cases (i == p)) [
        | inl here ↦
            (let at : i ≡ p = ground arith in
              let same : node_of (f i) i j ≡ node_of (f p) p j =
                ap (λ (x : ℕ). node_of (f x) x j) at in
              ground (arith, same))
        | inr other ↦ ground arith
      ]

  module _ (m n : ℕ) (M : ℕ → ℕ → Value D) (t : Table D) (is : IsMatrix m n M t) where
    pub copy_row_from_table-Overwritten :
        (a : ℕ → Node D) (r : ℕ)
        → r < m
        → Gives (copy_row_from_table a t r) (Overwritten n (λ j. node_of (M r j) r j) a)
    unfolding copy_row_from_table keep_or_copy
    copy_row_from_table-Overwritten a r lt =
        Gives-for (λ k. Overwritten k (λ j. node_of (M r j) r j) a) _ n t.columns a is.columns
          (λ i. ground arith)
          (λ j b to h.
            rw (is.heads j to, find_row-column m 0 j r (λ i. M i j) (omega arith) (omega arith))
              (Gives-some _ (Overwritten-update j (λ j. node_of (M r j) r j) a b h)))

    pub copy_row_to_table-IsMatrix :
        (a : ℕ → Node D) (r : ℕ) (v : ℕ → Value D)
        → r < m
        → ((j : ℕ) → j < n → a j ≡ node_of (v j) r j)
        → Gives (copy_row_to_table t a r) (IsMatrix m n (λ i j. if i == r then v j else M i j))
    unfolding copy_row_to_table
    copy_row_to_table-IsMatrix a r v lt e =
        all_columns (λ j c. some (replace_row r (a j) c))
          (λ j. column m 0 j (λ i. if i == r then v j else M i j)) (λ j. column m 0 j (λ i. M i j))
          t.columns t is.columns
          (λ j to.
            rw (e j to)
              (ap some (replace_row-column m 0 j r (v j) (λ i. M i j) (omega arith) (omega arith))))
          is

    pub get_column_from_table_lem :
        (j : ℕ) (a : ℕ → Node D) (p : ℕ)
        → j < n
        → p < m
        → get_column_from_table t j a p ≡ node_of (M p j) p j
    unfolding get_column_from_table
    get_column_from_table_lem j a p lt lt' =
        rw (is.heads j lt) (place_nodes-column m 0 j (λ i. M i j) a p ∙ ground arith)

  each_node :
      (g : Node D → Node D) (n : ℕ) (a : ℕ → Node D)
      → Gives (loop n 0 (λ i b. some (update b i (g (b i)))) a) (Overwritten n (λ i. g (a i)) a)
  each_node g n a =
      Gives-for (λ k. Overwritten k (λ i. g (a i)) a) (λ i b. some (update b i (g (b i)))) n n a
        refl (λ i. ground arith)
        (λ k b to h.
          let now : b k ≡ a k = h k ∙ ground arith in
          rw now (Gives-some _ (Overwritten-update k (λ i. g (a i)) a b h)))

module _ {D : Type 0} (o : Doubles D) where
  pub mult_array_by_node-Overwritten :
      (a : ℕ → Node D) (node : Node D) (n : ℕ)
      → Gives (mult_array_by_node o a node n) (Overwritten n (λ i. mult_node o (a i) node) a)
  unfolding mult_array_by_node
  mult_array_by_node-Overwritten a node n = each_node (λ x. mult_node o x node) n a

  pub divide_array_by_double-Overwritten :
      (a : ℕ → Node D) (n : ℕ) (denominator : D)
      → Gives
          (divide_array_by_double o a n denominator)
          (Overwritten n (λ i. divide_node o denominator (a i)) a)
  unfolding divide_array_by_double
  divide_array_by_double-Overwritten a n denominator = each_node (divide_node o denominator) n a
