-- ===== src/Matrix/Invert.antt =====
-- sefdm/algorythms/test.list.161.c: `invert`, less what it prints. Its local variables are a record;
-- after the first round `A` and `Aprime` are the same table, and so are `Aug` and `Augprime`.
pub mod Parts
pub mod Reduced
pub mod Result
use tcp_and_parallel.Prelude.{
  ℕ, zero, suc, ◌+◌, ◌-◌, Bool, true, false, not, List, [], ◌∷◌, Option, none, some, if◌then◌else◌,
  ◌==◌, ◌>>=◌, loop,
}
use tcp_and_parallel.Matrix.Table.{
  Doubles, Node, Table, node_init, node_set, set_column, zero_double, table_init, dummy_init,
  copy_table,
}
use tcp_and_parallel.Matrix.Product.{write_column, table_sub}
use tcp_and_parallel.Matrix.Rows.{
  copy_row_from_table, copy_row_to_table, get_column_from_table, mult_array_by_node,
  divide_array_by_double,
}

-- `prime` and `aug_prime` are the tables that `table_sub` writes, `none` where they are `a` and `aug`.
pub record Local (D : Type 0) : Type 0 where
  pub a : Table D
  pub aug : Table D
  pub prime : Option (Table D)
  pub aug_prime : Option (Table D)
  pub subtr : Table D
  pub asubtr : Table D
  pub rr : ℕ → Node D
  pub ar : ℕ → Node D

module _ {D : Type 0} where
  or_same : Option (Table D) → Table D → Table D
  or_same none t = t
  or_same (some t') t = t'

  -- The copy of `Aug` to `augment`.
  pub copy_values : (mynodes anodes : List (Node D)) → List (Node D)
  copy_values [] anodes = []
  copy_values (mynode ∷ rest) [] = mynode ∷ rest
  copy_values (mynode ∷ rest) (anode ∷ others) =
      node_set mynode anode.real anode.imag ∷ copy_values rest others

module _ {D : Type 0} (o : Doubles D) where
  zero_node : Node D → Node D
  zero_node snode = node_set snode (zero_double o) (zero_double o)

  -- The columns below `r` of a subtrahend.
  zero_nodes : List (Node D) → List (Node D)
  unfolding zero_node
  zero_nodes [] = []
  zero_nodes (snode ∷ rest) = zero_node snode ∷ zero_nodes rest

  pub zero_columns : ℕ → Table D → Option (Table D)
  unfolding zero_nodes
  zero_columns r subtr = loop r 0 (λ i t. some (set_column t i (zero_nodes (t.head i)))) subtr

  -- A node of the subtrahend, from the one of the pivot column and the one of the pivot row.
  pub product_node : Node D → Node D → Node D → Node D
  product_node snode c p =
      node_set snode (o.sub (o.mul c.real p.real) (o.mul c.imag p.imag))
        (o.add (o.mul c.real p.imag) (o.mul c.imag p.real))

  -- The same for the augment, where the products of the imaginary parts are added.
  pub aug_product_node : Node D → Node D → Node D → Node D
  aug_product_node snode c p =
      node_set snode (o.add (o.mul c.real p.real) (o.mul c.imag p.imag))
        (o.add (o.mul c.real p.imag) (o.mul c.imag p.real))

  -- The walk of a column of the matrix and of its subtrahend.
  pub product_nodes :
      (Node D → Node D → Node D → Node D)
      → ℕ
      → (cr rr : ℕ → Node D) → (mynodes snodes : List (Node D)) → List (Node D)
  unfolding zero_node
  product_nodes product r cr rr [] snodes = snodes
  product_nodes product r cr rr (mynode ∷ rest) [] = []
  product_nodes product r cr rr (mynode ∷ rest) (snode ∷ others) =
      (if not (snode.row == r)
        then product snode (cr mynode.row) (rr mynode.col)
        else zero_node snode)
      ∷ product_nodes product r cr rr rest others

  pub compute_subtrahend :
      (Node D → Node D → Node D → Node D)
      → (first count r : ℕ) → (cr rr : ℕ → Node D) → Table D
      → Table D
      → Option (Table D)
  unfolding product_nodes
  compute_subtrahend product first count r cr rr A subtr =
      loop count first
        (λ i t. some (set_column t i (product_nodes product r cr rr (A.head i) (t.head i)))) subtr

  -- The row by the conjugate of the pivot, where that has an imaginary part; `conj` is as the code
  -- makes it.
  pub condition_row : Node D → ℕ → (ℕ → Node D) → Option (ℕ → Node D)
  unfolding mult_array_by_node
  condition_row pivotnode length row =
      let conj = node_init pivotnode.real pivotnode.imag pivotnode.row pivotnode.col in
      if not (o.is_zero pivotnode.imag) then mult_array_by_node o row conj length else some row

  -- One round. `columns` is that of the matrix, and `cnodes` what `malloc` gives for the pivot column.
  pub round : ℕ → (ℕ → Node D) → ℕ → Local D → Option (Local D)
  unfolding condition_row compute_subtrahend zero_columns or_same product_node aug_product_node
      copy_row_from_table copy_row_to_table get_column_from_table divide_array_by_double table_sub
  round columns cnodes r s = do
    rr ← copy_row_from_table s.rr s.a r
    ar ← copy_row_from_table s.ar s.aug r
    let pivotnode = rr r
    rr' ← condition_row pivotnode columns rr
    ar' ← condition_row pivotnode columns ar
    let pivotreal = (rr' r).real
    rr'' ← divide_array_by_double o rr' columns pivotreal
    ar'' ← divide_array_by_double o ar' columns pivotreal
    a ← copy_row_to_table s.a rr'' r
    aug ← copy_row_to_table s.aug ar'' r
    let cr = get_column_from_table a r cnodes
    zeroed ← zero_columns r s.subtr
    azeroed ← zero_columns r s.asubtr
    subtr ← compute_subtrahend product_node r (a.columns - r) r cr rr'' a zeroed
    asubtr ← compute_subtrahend aug_product_node 0 (r + 1) r cr ar'' aug azeroed
    prime ← table_sub o (or_same s.prime a) a subtr
    aug_prime ← table_sub o (or_same s.aug_prime aug) aug asubtr
    some (record {
      a = prime;
      aug = aug_prime;
      prime = none;
      aug_prime = none;
      subtr = subtr;
      asubtr = asubtr;
      rr = rr'';
      ar = ar'';
    })

  -- `rr`, `ar` and `cnodes` are what `malloc` gives. The rounds are two, for a matrix of any size.
  pub invert :
      (rr ar : ℕ → Node D) → (cnodes : ℕ → ℕ → Node D) → Table D → Table D → Option (Table D)
  unfolding round copy_values copy_table dummy_init table_init
  invert rr ar cnodes mytable augment = do
    a ← copy_table mytable (table_init o mytable.rows mytable.columns)
    aug ← copy_table augment (table_init o augment.rows augment.columns)
    subtr ← dummy_init o (table_init o mytable.rows mytable.columns)
    asubtr ← dummy_init o (table_init o mytable.rows mytable.columns)
    prime ← dummy_init o (table_init o mytable.rows mytable.columns)
    aug_prime ← dummy_init o (table_init o augment.rows augment.columns)
    s ←
        loop 2 0 (λ r s. round mytable.columns (cnodes r) r s)
          (record {
            a = a;
            aug = aug;
            prime = some prime;
            aug_prime = some aug_prime;
            subtr = subtr;
            asubtr = asubtr;
            rr = rr;
            ar = ar;
          })
    loop augment.columns 0 (λ i t. some (set_column t i (copy_values (t.head i) (s.aug.head i))))
        augment
