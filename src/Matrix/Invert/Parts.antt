-- ===== src/Matrix/Invert/Parts.antt =====
-- sefdm/algorythms/test.list.161.c: the parts of one round of `invert`.
use tcp_and_parallel.Prelude.{
  ℕ, zero, suc, ◌+◌, ◌≤◌, ◌<◌, ◌≡◌, refl, ap, ◌∙◌, inl, inr, not, Bool-cases, some, ltb, leb, ◌&&◌,
  ◌==◌, if◌then◌else◌, Gives, Gives-some, Gives-weaken, arith,
}
use tcp_and_parallel.Matrix.Table.{Doubles, Node, Table, node_set}
use tcp_and_parallel.Matrix.Spec.{
  Value, node_of, column, column_ext, Shape-ext, IsMatrix, between, each_column,
}
use tcp_and_parallel.Matrix.Filled.{zero_value}
use tcp_and_parallel.Matrix.Product.Entries.{mul_value}
use tcp_and_parallel.Matrix.Rows.{rounded, divide_node, mult_node, divide_array_by_double}
use tcp_and_parallel.Matrix.Rows.Entries.{
  mult_array_by_node-Overwritten, divide_array_by_double-Overwritten,
}
use tcp_and_parallel.Matrix.Invert.{
  zero_node, zero_nodes, zero_columns, product_nodes, compute_subtrahend, condition_row,
  copy_values,
}

module _ {D : Type 0} where
  -- The first `n` nodes of the array are the row `r` with the values `v`.
  abbrev pub IsRow : (n r : ℕ) → (ℕ → Value D) → (ℕ → Node D) → Type 0
  IsRow n r v a = (j : ℕ) → j < n → a j ≡ node_of (v j) r j

  abbrev pub value_of : Node D → Value D
  value_of x = record { real = x.real; imag = x.imag }

  pub copy_values-column :
      (k i j : ℕ) (f g : ℕ → Value D)
      → copy_values (column k i j f) (column k i j g) ≡ column k i j g
  unfolding copy_values
  copy_values-column zero i j f g = refl
  copy_values-column (suc k) i j f g = rw (copy_values-column k (i + 1) j f g)

module _ {D : Type 0} (o : Doubles D) where
  abbrev pub conditioned : Value D → Value D → Value D
  conditioned p v = if not (o.is_zero p.imag) then mul_value o v p else v

  abbrev pub divided : D → Value D → Value D
  divided d v = record { real = rounded o v.real d; imag = rounded o v.imag d }

  pub condition_row-IsRow :
      (n r : ℕ) (p : Value D) (v : ℕ → Value D) (a : ℕ → Node D)
      → IsRow n r v a
      → Gives (condition_row o (node_of p r r) n a) (IsRow n r (λ j. conditioned p (v j)))
  unfolding condition_row mult_node
  condition_row-IsRow n r p v a h = elim (Bool-cases (o.is_zero p.imag)) [
    | inl real ↦ rw real (Gives-some a h)
    | inr complex ↦ rw complex (
        Gives-weaken _ (λ b e j lt. e j ∙ ground (arith, h j lt))
          (mult_array_by_node-Overwritten o a (node_of p r r) n))
  ]

  pub divide_array_by_double-IsRow :
      (n r : ℕ) (d : D) (v : ℕ → Value D) (a : ℕ → Node D)
      → IsRow n r v a
      → Gives (divide_array_by_double o a n d) (IsRow n r (λ j. divided d (v j)))
  unfolding divide_node
  divide_array_by_double-IsRow n r d v a h =
      Gives-weaken _ (λ b e j lt. e j ∙ ground (arith, h j lt))
        (divide_array_by_double-Overwritten o a n d)

  zero_nodes-column :
      (k i j : ℕ) (f : ℕ → Value D)
      → zero_nodes o (column k i j f) ≡ column k i j (λ p. zero_value o)
  unfolding zero_nodes
  zero_nodes-column zero i j f = refl
  zero_nodes-column (suc k) i j f = rw (zero_nodes-column k (i + 1) j f)

  pub zero_columns-IsMatrix :
      (m n r : ℕ) (S : ℕ → ℕ → Value D) (t : Table D)
      → r ≤ n
      → IsMatrix m n S t
      → Gives (zero_columns o r t) (IsMatrix m n (λ i j. if ltb j r then zero_value o else S i j))
  unfolding zero_columns
  zero_columns-IsMatrix m n r S t le is =
      let g = λ (j : ℕ). column m 0 j (λ i. zero_value o) in
      let h = λ (j : ℕ). column m 0 j (λ i. S i j) in
      Gives-weaken _ (λ t'. Shape-ext (between 0 (0 + r) g h) _ t' (λ j lt. ground arith))
        (each_column (λ j c. some (zero_nodes o c)) g h r 0 t (omega arith)
          (λ j from to. ap some (zero_nodes-column m 0 j (λ i. S i j))) is)

  module _ (product : Node D → Node D → Node D → Node D) (P : Value D → Value D → Value D)
      (at : (x c p : Node D)
        → product x c p
          ≡ node_set x (P (value_of c) (value_of p)).real (P (value_of c) (value_of p)).imag) where
    product_nodes-column :
        (r : ℕ) (cr rr : ℕ → Node D) (k i j : ℕ) (f s : ℕ → Value D)
        → product_nodes o product r cr rr (column k i j f) (column k i j s)
          ≡ column k i j
              (λ q. if q == r then zero_value o else P (value_of (cr q)) (value_of (rr j)))
    unfolding product_nodes zero_node
    product_nodes-column r cr rr zero i j f s = refl
    product_nodes-column r cr rr (suc k) i j f s = elim (Bool-cases (i == r)) [
      | inl here ↦ rw (here, product_nodes-column r cr rr k (i + 1) j f s)
      | inr other ↦ rw (
        other,
        product_nodes-column r cr rr k (i + 1) j f s,
        at (node_of (s i) i j) (cr i) (rr j),
      )
    ]

    pub compute_subtrahend-IsMatrix :
        (m n first count r : ℕ) (cr rr : ℕ → Node D) (c p : ℕ → Value D)
        → (M S : ℕ → ℕ → Value D) (A t : Table D) → first + count ≤ n
        → ((i : ℕ) → i < m → cr i ≡ node_of (c i) i r)
        → IsRow n r p rr
        → IsMatrix m n M A
        → IsMatrix m n S t
        → Gives (compute_subtrahend o product first count r cr rr A t) (
            IsMatrix m n (λ i j.
              if leb first j && ltb j (first + count)
              then (if i == r then zero_value o else P (c i) (p j))
              else S i j))
    unfolding compute_subtrahend
    compute_subtrahend-IsMatrix m n first count r cr rr c p M S A t le hc hp a is =
        let g = λ (j : ℕ). column m 0 j (λ i. if i == r then zero_value o else P (c i) (p j)) in
        let h = λ (j : ℕ). column m 0 j (λ i. S i j) in
        Gives-weaken _
          (λ t'. Shape-ext (between first (first + count) g h) _ t' (λ j lt.
            elim (Bool-cases (leb first j && ltb j (first + count))) [
              | inl inside ↦ rw inside
              | inr outside ↦ rw outside
            ]))
          (each_column (λ j c. some (product_nodes o product r cr rr (A.head j) c)) g h count first
            t le
            (λ j from to. rw (a.heads j (omega arith)) (
              ap some (
                product_nodes-column r cr rr m 0 j (λ i. M i j) (λ i. S i j)
                ∙ column_ext m 0 j _ _
                    (λ i from' to'. rw (hc i (omega arith), hp j (omega arith))))))
            is)
