-- ===== src/Matrix/Spec.antt =====
-- sefdm/algorythms/test.list.161.c: what a table stands for, a function of the row and the column, and
-- the steps by which the loops change it.
use tcp_and_parallel.Prelude.{
  ℕ, zero, suc, ◌+◌, ◌≤◌, ◌<◌, ◌≡◌, refl, ap, ◌∙◌, true, ◌&&◌, List, [], ◌∷◌, ◌++◌, Option, some,
  ltb, leb, ◌==◌, if◌then◌else◌, update, ◌>>=◌, loop, Gives, Gives-some, Gives-weaken, Gives-loop,
  arith,
}
use tcp_and_parallel.Matrix.Table.{Node, Table, node_init, set_column, table_append}

pub record Value (D : Type 0) : Type 0 where
  pub real : D
  pub imag : D

module _ {D : Type 0} where
  pub Value_ext : (v w : Value D) → v.real ≡ w.real → v.imag ≡ w.imag → v ≡ w
  Value_ext v w p q = ground arith

  abbrev pub node_of : Value D → ℕ → ℕ → Node D
  node_of v i j = node_init v.real v.imag i j

  -- `k` nodes of column `j`, from row `i` on.
  abbrev pub column : (k i j : ℕ) → (ℕ → Value D) → List (Node D)
  column zero i j f = []
  column (suc k) i j f = node_of (f i) i j ∷ column k (i + 1) j f

  -- A table of `m` rows and `n` columns with these columns.
  pub record Shape (m n : ℕ) (h : ℕ → List (Node D)) (t : Table D) : Type 0 where
    pub rows : t.rows ≡ m
    pub columns : t.columns ≡ n
    pub heads : (j : ℕ) → j < n → t.head j ≡ h j

  -- The table holds the matrix `M`: the node of each row and column, in order.
  abbrev pub IsMatrix : (m n : ℕ) → (ℕ → ℕ → Value D) → Table D → Type 0
  IsMatrix m n M t = Shape m n (λ j. column m 0 j (λ i. M i j)) t

  abbrev pub IsEmptyTable : (m n : ℕ) → Table D → Type 0
  IsEmptyTable m n t = Shape m n (λ j. []) t

  pub column-snoc :
      (k i j : ℕ) (f : ℕ → Value D)
      → column k i j f ++ node_of (f (i + k)) (i + k) j ∷ [] ≡ column (suc k) i j f
  column-snoc zero i j f = ap (λ (x : ℕ). node_of (f x) x j ∷ []) (omega arith)
  column-snoc (suc k) i j f =
      ap (λ (x : ℕ). node_of (f i) i j ∷ (column k (i + 1) j f ++ node_of (f x) x j ∷ []))
        (omega arith)
      ∙ ap (λ (rest : List (Node D)). node_of (f i) i j ∷ rest) (column-snoc k (i + 1) j f)

  pub column_ext :
      (k i j : ℕ) (f g : ℕ → Value D)
      → ((p : ℕ) → i ≤ p → p < i + k → f p ≡ g p)
      → column k i j f ≡ column k i j g
  column_ext zero i j f g h = refl
  column_ext (suc k) i j f g h =
      ap (λ (v : Value D). node_of v i j ∷ column k (i + 1) j f) (h i (omega arith) (omega arith))
      ∙ ap (λ (rest : List (Node D)). node_of (g i) i j ∷ rest)
          (column_ext k (i + 1) j f g (λ p le lt. h p (omega arith) (omega arith)))

  -- The columns from `first` to before `i` are those of `g`.
  abbrev pub between : (first i : ℕ) → (g h : ℕ → List (Node D)) → ℕ → List (Node D)
  between first i g h j = if leb first j && ltb j i then g j else h j

  module _ {m n : ℕ} where
    pub Shape-ext :
        (h g : ℕ → List (Node D)) (t : Table D)
        → ((j : ℕ) → j < n → h j ≡ g j)
        → Shape m n h t
        → Shape m n g t
    Shape-ext h g t e s = record {
      rows = s.rows;
      columns = s.columns;
      heads = λ j lt. s.heads j lt ∙ e j lt;
    }

    pub IsMatrix_ext :
        (M N : ℕ → ℕ → Value D) (t : Table D)
        → ((i j : ℕ) → i < m → j < n → M i j ≡ N i j)
        → IsMatrix m n M t
        → IsMatrix m n N t
    IsMatrix_ext M N t e =
        Shape-ext _ _ t (λ j lt. column_ext m 0 j _ _ (λ i from to. e i j (omega arith) lt))

    pub set_column-Shape :
        (h : ℕ → List (Node D)) (t : Table D) (i : ℕ) (c : List (Node D))
        → Shape m n h t
        → Shape m n (update h i c) (set_column t i c)
    set_column-Shape h t i c s = record {
      rows = s.rows;
      columns = s.columns;
      heads = λ j lt. ap (λ (x : List (Node D)). if i == j then c else x) (s.heads j lt);
    }

    pub table_append-Shape :
        (h : ℕ → List (Node D)) (t : Table D) (new : Node D)
        → new.col < n
        → Shape m n h t
        → Gives (table_append t new) (Shape m n (update h new.col (h new.col ++ new ∷ [])))
    unfolding table_append
    table_append-Shape h t new lt s =
        let inside : ltb new.col t.columns ≡ true = ground (arith, s.columns) in
        rw inside (
          Gives-some (set_column t new.col (t.head new.col ++ new ∷ []))
            (rw (s.heads new.col lt) (set_column-Shape h t new.col (h new.col ++ new ∷ []) s)))

    -- A loop that writes one column after the other.
    pub each_column :
        (op : ℕ → List (Node D) → Option (List (Node D))) (g h : ℕ → List (Node D))
        → (k first : ℕ) (t : Table D) → first + k ≤ n
        → ((j : ℕ) → first ≤ j → j < first + k → op j (h j) ≡ some (g j))
        → Shape m n h t
        → Gives
            (loop k first (λ i t. op i (t.head i) >>= λ c. some (set_column t i c)) t)
            (Shape m n (between first (first + k) g h))
    each_column op g h k first t le e s =
        Gives-loop (λ i t. Shape m n (between first i g h) t)
          (λ i t. op i (t.head i) >>= λ c. some (set_column t i c)) k first t
          (Shape-ext h (between first first g h) t (λ j lt. ground arith) s)
          (λ i t from to s'.
            let now : t.head i ≡ h i = s'.heads i (omega arith) ∙ ground arith in
            rw now (
              rw (e i from to) (
                Gives-some (set_column t i (g i)) (
                  Shape-ext (update (between first i g h) i (g i)) (between first (i + 1) g h)
                    (set_column t i (g i)) (λ j lt. ground (arith, from))
                    (set_column-Shape (between first i g h) t i (g i) s')))))

    pub all_columns :
        (op : ℕ → List (Node D) → Option (List (Node D))) (g h : ℕ → List (Node D))
        → (count : ℕ) (t : Table D) → count ≡ n
        → ((j : ℕ) → j < n → op j (h j) ≡ some (g j))
        → Shape m n h t
        → Gives
            (loop count 0 (λ i t. op i (t.head i) >>= λ c. some (set_column t i c)) t)
            (Shape m n g)
    all_columns op g h count t e each s = rw e (
        Gives-weaken _ (λ t'. Shape-ext (between 0 (0 + n) g h) g t' (λ j lt. ground arith))
          (each_column op g h n 0 t (omega arith) (λ j from to. each j (omega arith)) s))
