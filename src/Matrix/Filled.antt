-- ===== src/Matrix/Filled.antt =====
-- sefdm/algorythms/test.list.161.c: the loops that fill a new table with `table_append`.
use tcp_and_parallel.Prelude.{
  ℕ, zero, suc, ◌+◌, ◌<◌, ◌≡◌, ap, subst, ◌∙◌, List, [], ◌∷◌, ◌++◌, ltb, ◌==◌, if◌then◌else◌,
  update, loop, Gives, Gives-some, Gives-weaken, Gives->>=, Gives-loop, arith,
}
use tcp_and_parallel.Matrix.Table.{
  Doubles, Node, Table, node_init, node_copy, table_append, append_nodes, zero_double, one_double,
  identity_init, zero_init, dummy_init, transpose, copy_table,
}
use tcp_and_parallel.Matrix.Spec.{
  Value, node_of, column, Shape, IsMatrix, IsEmptyTable, Shape-ext, column-snoc, table_append-Shape,
}

module _ {D : Type 0} (m n : ℕ) (M : ℕ → ℕ → Value D) where
  -- Columns before `j` are full, and column `j` has `i` nodes.
  abbrev by_columns : (i j : ℕ) → ℕ → List (Node D)
  by_columns i j =
      update (λ c. if ltb c j then column m 0 c (λ p. M p c) else []) j (column i 0 j (λ p. M p j))

  -- Columns have `i` nodes, and those before `j` one more.
  abbrev by_rows : (i j : ℕ) → ℕ → List (Node D)
  by_rows i j c = if ltb c j then column (i + 1) 0 c (λ p. M p c) else column i 0 c (λ p. M p c)

  snoc :
      (i j : ℕ)
      → column i 0 j (λ p. M p j) ++ node_of (M i j) i j ∷ [] ≡ column (i + 1) 0 j (λ p. M p j)
  snoc i j =
      let f = λ (p : ℕ). M p j in
      let more : suc i ≡ i + 1 = omega arith in
      subst (λ (x : ℕ). column i 0 j f ++ node_of (M x j) x j ∷ [] ≡ column (i + 1) 0 j f)
        (omega arith) (column-snoc i 0 j f ∙ ap (λ (k : ℕ). column k 0 j f) more)

  append_by_columns :
      (i j : ℕ) (t : Table D)
      → j < n
      → Shape m n (by_columns i j) t
      → Gives (table_append t (node_of (M i j) i j)) (Shape m n (by_columns (i + 1) j))
  append_by_columns i j t lt s =
      Gives-weaken (table_append t (node_of (M i j) i j))
        (λ t'. Shape-ext _ (by_columns (i + 1) j) t' (λ c c_lt. ground (arith, snoc i j)))
        (table_append-Shape (by_columns i j) t (node_of (M i j) i j) lt s)

  append_by_rows :
      (i j : ℕ) (t : Table D)
      → j < n
      → Shape m n (by_rows i j) t
      → Gives (table_append t (node_of (M i j) i j)) (Shape m n (by_rows i (j + 1)))
  append_by_rows i j t lt s =
      Gives-weaken (table_append t (node_of (M i j) i j))
        (λ t'. Shape-ext _ (by_rows i (j + 1)) t' (λ c c_lt. ground (arith, snoc i j)))
        (table_append-Shape (by_rows i j) t (node_of (M i j) i j) lt s)

  pub fill_by_columns :
      (count : ℕ) (rounds : Table D → ℕ) (t : Table D)
      → count ≡ n
      → ((t : Table D) → t.rows ≡ m → rounds t ≡ m)
      → IsEmptyTable m n t
      → Gives
          (loop count 0
            (λ j t. loop (rounds t) 0 (λ i t'. table_append t' (node_of (M i j) i j)) t)
            t)
          (IsMatrix m n M)
  fill_by_columns count rounds t e all empty = rw e (
      Gives-weaken _ (λ t'. Shape-ext _ _ t' (λ c lt. ground arith))
        (Gives-loop (λ j t. Shape m n (by_columns 0 j) t)
          (λ j t. loop (rounds t) 0 (λ i t'. table_append t' (node_of (M i j) i j)) t) n 0 t
          (Shape-ext _ (by_columns 0 0) t (λ c lt. ground arith) empty)
          (λ j t from to s. rw (all t s.rows) (
            Gives-weaken _ (λ t'. Shape-ext _ (by_columns 0 (j + 1)) t' (λ c lt. ground arith))
              (Gives-loop (λ i t. Shape m n (by_columns i j) t)
                (λ i t'. table_append t' (node_of (M i j) i j)) m 0 t s
                (λ i t' from' to' s'. append_by_columns i j t' (omega arith) s'))))))

  fill_by_rows :
      (count : ℕ) (rounds : Table D → ℕ) (t : Table D)
      → count ≡ m
      → ((t : Table D) → t.columns ≡ n → rounds t ≡ n)
      → IsEmptyTable m n t
      → Gives
          (loop count 0
            (λ i t. loop (rounds t) 0 (λ j t'. table_append t' (node_of (M i j) i j)) t)
            t)
          (IsMatrix m n M)
  fill_by_rows count rounds t e all empty = rw e (
      Gives-weaken _ (λ t'. Shape-ext _ _ t' (λ c lt. ground arith))
        (Gives-loop (λ i t. Shape m n (by_rows i 0) t)
          (λ i t. loop (rounds t) 0 (λ j t'. table_append t' (node_of (M i j) i j)) t) m 0 t
          (Shape-ext _ (by_rows 0 0) t (λ c lt. ground arith) empty)
          (λ i t from to s. rw (all t s.columns) (
            Gives-weaken _ (λ t'. Shape-ext _ (by_rows (i + 1) 0) t' (λ c lt. ground arith))
              (Gives-loop (λ j t. Shape m n (by_rows i j) t)
                (λ j t'. table_append t' (node_of (M i j) i j)) n 0 t s
                (λ j t' from' to' s'. append_by_rows i j t' (omega arith) s'))))))

  -- The walk of column `j` of another table, whose nodes go to row `j` of this one.
  append_row :
      (k p j : ℕ) (t : Table D)
      → p + k ≡ n
      → Shape m n (by_rows j p) t
      → Gives
          (append_nodes (λ x. node_init x.real x.imag x.col x.row) (column k p j (M j)) t)
          (Shape m n (by_rows (j + 1) 0))
  unfolding append_nodes
  append_row zero p j t e s =
      Gives-some t (Shape-ext (by_rows j p) (by_rows (j + 1) 0) t (λ c lt. ground arith) s)
  append_row (suc k) p j t e s =
      Gives->>= (table_append t (node_of (M j p) j p))
        (append_nodes (λ x. node_init x.real x.imag x.col x.row) (column k (p + 1) j (M j)))
        (append_by_rows j p t (omega arith) s) (λ t' s'. append_row k (p + 1) j t' (omega arith) s')

  append_column :
      (k i j : ℕ) (t : Table D)
      → i + k ≡ m
      → j < n
      → Shape m n (by_columns i j) t
      → Gives
          (append_nodes node_copy (column k i j (λ p. M p j)) t)
          (Shape m n (by_columns 0 (j + 1)))
  unfolding append_nodes
  append_column zero i j t e lt s =
      Gives-some t (Shape-ext (by_columns i j) (by_columns 0 (j + 1)) t (λ c lt. ground arith) s)
  append_column (suc k) i j t e lt s =
      Gives->>= (table_append t (node_of (M i j) i j))
        (append_nodes node_copy (column k (i + 1) j (λ p. M p j))) (append_by_columns i j t lt s)
        (λ t' s'. append_column k (i + 1) j t' (omega arith) lt s')

module _ {D : Type 0} (o : Doubles D) where
  abbrev pub zero_value : Value D
  zero_value = record { real = zero_double o; imag = zero_double o }

  abbrev pub identity_value : ℕ → ℕ → Value D
  identity_value i j = record {
    real = if i == j then one_double o else zero_double o;
    imag = zero_double o;
  }

  module _ (m n : ℕ) (t : Table D) (empty : IsEmptyTable m n t) where
    pub identity_init-IsMatrix : Gives (identity_init o t) (IsMatrix m n identity_value)
    unfolding identity_init
    identity_init-IsMatrix =
        fill_by_columns m n identity_value t.columns (λ t. t.rows) t empty.columns (λ t e. e) empty

    pub zero_init-IsMatrix : Gives (zero_init o t) (IsMatrix m n (λ i j. zero_value))
    unfolding zero_init
    zero_init-IsMatrix =
        fill_by_columns m n (λ i j. zero_value) t.columns (λ t. t.rows) t empty.columns (λ t e. e)
          empty

    pub dummy_init-IsMatrix : Gives (dummy_init o t) (IsMatrix m n (λ i j. zero_value))
    unfolding dummy_init
    dummy_init-IsMatrix =
        fill_by_rows m n (λ i j. zero_value) t.rows (λ t. t.columns) t empty.rows (λ t e. e) empty

module _ {D : Type 0} (m n : ℕ) (M : ℕ → ℕ → Value D) (t new : Table D) where
  -- On a table that holds a matrix and a new table of as many rows as it has columns and as many
  -- columns as it has rows, TRANSPOSE fills the new one with the transposed matrix.
  pub transpose-IsMatrix :
      IsMatrix m n M t
      → IsEmptyTable n m new
      → Gives (transpose t new) (IsMatrix n m (λ i j. M j i))
  unfolding transpose
  transpose-IsMatrix is empty =
      let M' = λ (i j : ℕ). M j i in
      rw is.columns (
        Gives-weaken _ (λ t'. Shape-ext _ _ t' (λ c lt. ground arith))
          (Gives-loop (λ j t. Shape n m (by_rows n m M' j 0) t)
            (λ j t'. append_nodes (λ x. node_init x.real x.imag x.col x.row) (t.head j) t') n 0 new
            (Shape-ext _ (by_rows n m M' 0 0) new (λ c lt. ground arith) empty)
            (λ j t' from to s.
              rw (is.heads j (omega arith)) (append_row n m M' m 0 j t' (omega arith) s))))

  pub copy_table-IsMatrix :
      IsMatrix m n M t → IsEmptyTable m n new → Gives (copy_table t new) (IsMatrix m n M)
  unfolding copy_table
  copy_table-IsMatrix is empty = rw is.columns (
      Gives-weaken _ (λ t'. Shape-ext _ _ t' (λ c lt. ground arith))
        (Gives-loop (λ j t. Shape m n (by_columns m n M 0 j) t)
          (λ j t'. append_nodes node_copy (t.head j) t') n 0 new
          (Shape-ext _ (by_columns m n M 0 0) new (λ c lt. ground arith) empty)
          (λ j t' from to s.
            rw (is.heads j (omega arith))
              (append_column m n M m 0 j t' (omega arith) (omega arith) s))))
