-- ===== src/Matrix/Product/Entries.antt =====
-- sefdm/algorythms/test.list.161.c: the entries of a difference, a product and a correlation.
use tcp_and_parallel.Prelude.{
  ℕ, zero, suc, ◌+◌, ◌≡◌, refl, sym, ap, subst, ◌∙◌, List, some, loop, Gives, Gives-weaken,
  Gives-for, arith,
}
use tcp_and_parallel.Matrix.Table.{Doubles, Node, Table, zero_double}
use tcp_and_parallel.Matrix.Spec.{
  Value, Value_ext, column, column_ext, Shape-ext, IsMatrix, IsEmptyTable, all_columns,
}
use tcp_and_parallel.Matrix.Filled.{fill_by_columns}
use tcp_and_parallel.Matrix.Product.{
  sub_column, table_sub, write_column, mult_column, table_mult, real_sum, imag_sum, correlate,
}

module _ {D : Type 0} (o : Doubles D) where
  -- Complex numbers.
  abbrev pub sub_value : Value D → Value D → Value D
  sub_value x y = record { real = o.sub x.real y.real; imag = o.sub x.imag y.imag }

  abbrev pub add_value : Value D → Value D → Value D
  add_value x y = record { real = o.add x.real y.real; imag = o.add x.imag y.imag }

  abbrev pub mul_value : Value D → Value D → Value D
  mul_value x y = record {
    real = o.sub (o.mul x.real y.real) (o.mul x.imag y.imag);
    imag = o.add (o.mul x.real y.imag) (o.mul x.imag y.real);
  }

  -- The product of the conjugate of `x` with `y`.
  abbrev pub conjugate_mul : Value D → Value D → Value D
  conjugate_mul x y = record {
    real = o.add (o.mul x.real y.real) (o.mul x.imag y.imag);
    imag = o.sub (o.mul x.real y.imag) (o.mul y.real x.imag);
  }

  -- The sum of the first `k` values, added to `c` from the first on.
  abbrev pub sum_onto : Value D → ℕ → (ℕ → Value D) → Value D
  sum_onto c zero f = c
  sum_onto c (suc k) f = add_value (sum_onto c k f) (f k)

  sub_column-column :
      (k i j : ℕ) (h f g : ℕ → Value D)
      → sub_column o (column k i j h) (column k i j f) (column k i j g)
        ≡ some (column k i j (λ p. sub_value (f p) (g p)))
  unfolding sub_column
  sub_column-column zero i j h f g = refl
  sub_column-column (suc k) i j h f g = rw (sub_column-column k (i + 1) j h f g)

  -- On three tables of one size that hold matrices, table_sub follows no NULL pointer, and C then
  -- holds the difference of A and B, entry by entry.
  pub table_sub-IsMatrix :
      (m n : ℕ) (K M N : ℕ → ℕ → Value D) (C A B : Table D)
      → IsMatrix m n K C
      → IsMatrix m n M A
      → IsMatrix m n N B
      → Gives (table_sub o C A B) (IsMatrix m n (λ i j. sub_value (M i j) (N i j)))
  unfolding table_sub
  table_sub-IsMatrix m n K M N C A B c a b =
      let g = λ (j : ℕ). column m 0 j (λ i. sub_value (M i j) (N i j)) in
      let h = λ (j : ℕ). column m 0 j (λ i. K i j) in
      all_columns (λ j c. sub_column o c (A.head j) (B.head j)) g h C.columns C c.columns
        (λ j lt.
          rw (a.heads j lt, b.heads j lt)
            (sub_column-column m 0 j (λ i. K i j) (λ i. M i j) (λ i. N i j)))
        c

  mult_column-column :
      (k i j l : ℕ) (h f g : ℕ → Value D)
      → mult_column o (column k i j h) (column k i l f) (column k i j g)
        ≡ some (column k i j (λ p. add_value (h p) (mul_value (f p) (g p))))
  unfolding mult_column
  mult_column-column zero i j l h f g = refl
  mult_column-column (suc k) i j l h f g = rw (mult_column-column k (i + 1) j l h f g)

  -- On tables that hold a matrix C of m rows and n columns, A of m rows and p columns and B of m
  -- rows and n columns, table_mult follows no NULL pointer, and C then has added to each entry the
  -- products of its entry of B with every entry of the same row of A, one after the other.
  pub table_mult-IsMatrix :
      (m p n : ℕ) (K M N : ℕ → ℕ → Value D) (C A B : Table D)
      → IsMatrix m n K C
      → IsMatrix m p M A
      → IsMatrix m n N B
      → Gives
          (table_mult o C A B)
          (IsMatrix m n (λ i j. sum_onto (K i j) p (λ k. mul_value (M i k) (N i j))))
  unfolding table_mult
  table_mult-IsMatrix m p n K M N C A B c a b =
      let partial = λ (k i j : ℕ). sum_onto (K i j) k (λ q. mul_value (M i q) (N i j)) in
      Gives-for (λ k t. IsMatrix m n (partial k) t)
        (λ k t.
          loop B.columns 0
            (λ j t'. write_column t' j (mult_column o (t'.head j) (A.head k) (B.head j))) t)
        p A.columns C a.columns c
        (λ k t lt s.
          let next : suc k ≡ k + 1 = omega arith in
          Gives-weaken _ (λ t' r. subst (λ (x : ℕ). IsMatrix m n (partial x) t') next r)
            (all_columns (λ j c. mult_column o c (A.head k) (B.head j))
              (λ j. column m 0 j (λ i. partial (suc k) i j))
              (λ j. column m 0 j (λ i. partial k i j)) B.columns t b.columns
              (λ j lt'.
                rw (a.heads k lt, b.heads j lt')
                  (mult_column-column m 0 j k (λ i. partial k i j) (λ i. M i k) (λ i. N i j)))
              s))

  -- The sum over the rows of the products of the conjugate of one column with another.
  abbrev pub products : (x y : ℕ → Value D) → ℕ → Value D
  products x y k =
      sum_onto (record { real = zero_double o; imag = zero_double o }) k
        (λ p. conjugate_mul (x p) (y p))

  real_sum-column :
      (k i j l : ℕ) (x y : ℕ → Value D)
      → real_sum o (products x y i).real (column k i j x) (column k i l y)
        ≡ (products x y (i + k)).real
  unfolding real_sum
  real_sum-column zero i j l x y = ap (λ (q : ℕ). (products x y q).real) (omega arith)
  real_sum-column (suc k) i j l x y =
      let next : suc i ≡ i + 1 = omega arith in
      subst
        (λ (q : ℕ).
          real_sum o (products x y q).real (column k (i + 1) j x) (column k (i + 1) l y)
          ≡ (products x y (i + suc k)).real)
        (sym next)
        (real_sum-column k (i + 1) j l x y ∙ ap (λ (q : ℕ). (products x y q).real) (omega arith))

  imag_sum-column :
      (k i j l : ℕ) (x y : ℕ → Value D)
      → imag_sum o (products x y i).imag (column k i j x) (column k i l y)
        ≡ (products x y (i + k)).imag
  unfolding imag_sum
  imag_sum-column zero i j l x y = ap (λ (q : ℕ). (products x y q).imag) (omega arith)
  imag_sum-column (suc k) i j l x y =
      let next : suc i ≡ i + 1 = omega arith in
      subst
        (λ (q : ℕ).
          imag_sum o (products x y q).imag (column k (i + 1) j x) (column k (i + 1) l y)
          ≡ (products x y (i + suc k)).imag)
        (sym next)
        (imag_sum-column k (i + 1) j l x y ∙ ap (λ (q : ℕ). (products x y q).imag) (omega arith))

  sums-column :
      (m j l : ℕ) (x y : ℕ → Value D) (xs ys : List (Node D))
      → xs ≡ column m 0 j x
      → ys ≡ column m 0 l y
      → record { real = real_sum o (zero_double o) xs ys; imag = imag_sum o (zero_double o) xs ys }
        ≡ products x y m
  sums-column m j l x y xs ys e e' =
      rw (e, e')
        (Value_ext _ (products x y m)
          (real_sum-column m 0 j l x y ∙ ap (λ (q : ℕ). (products x y q).real) (omega arith))
          (imag_sum-column m 0 j l x y ∙ ap (λ (q : ℕ). (products x y q).imag) (omega arith)))

  -- On a table of n columns that holds a matrix and a new square table of n, correlate fills the
  -- new one; the entry of row i and column j is the sum over the rows of the conjugate of the
  -- entry of column j times that of column i.
  pub correlate-IsMatrix :
      (m n : ℕ) (M : ℕ → ℕ → Value D) (t new : Table D)
      → IsMatrix m n M t
      → IsEmptyTable n n new
      → Gives (correlate o t new) (IsMatrix n n (λ i j. products (λ p. M p j) (λ p. M p i) m))
  unfolding correlate
  correlate-IsMatrix m n M t new is empty =
      Gives-weaken _
        (λ t'.
          Shape-ext _ (λ j. column n 0 j (λ i. products (λ p. M p j) (λ p. M p i) m)) t'
            (λ j lt. column_ext n 0 j _ _ (λ i from to.
              sums-column m j i (λ p. M p j) (λ p. M p i) (t.head j) (t.head i) (is.heads j lt)
                (is.heads i (omega arith)))))
        (fill_by_columns n n
          (λ i j. record {
            real = real_sum o (zero_double o) (t.head j) (t.head i);
            imag = imag_sum o (zero_double o) (t.head j) (t.head i);
          })
          t.columns (λ t'. t.columns) new is.columns (λ t' e. is.columns) empty)
