-- ===== src/Matrix/Product.antt =====
-- sefdm/algorythms/test.list.161.c: difference, product, correlation and sum of tables, the deviation
-- of the noise, and the arithmetic of two nodes.
pub mod Entries
pub mod Unset
use tcp_and_parallel.Prelude.{
  ℕ, ◌+◌, ◌*◌, ◌/◌, Bool, true, false, List, [], ◌∷◌, Option, none, some, ltb, if◌then◌else◌, ◌>>=◌,
  loop,
}
use tcp_and_parallel.Matrix.Table.{
  Doubles, Node, Table, node_init, set_column, table_append, zero_double,
}

module _ {D : Type 0} where
  -- A head that `table_init` does not set is what malloc has left there: to use it is not defined, and a
  -- fault here, whether or not the memory is long enough to hold it.
  pub read_head : Table D → ℕ → Option (List (Node D))
  read_head t i = if ltb i t.columns then some (t.head i) else none

  abbrev pub write_column : Table D → ℕ → Option (List (Node D)) → Option (Table D)
  write_column t i nodes = nodes >>= λ c. some (set_column t i c)

abbrev pub oversampling : ℕ
oversampling = 2

abbrev pub modulation_level : ℕ
modulation_level = 8

abbrev pub num_blocks : ℕ
num_blocks = 10

abbrev pub num_carriers : ℕ
num_carriers = 4

abbrev pub eb : ℕ
eb = 2

module _ {D : Type 0} (o : Doubles D) where
  -- The walk of `table_sub`, which follows `cnode` while the other two last.
  pub sub_column : (cnodes anodes bnodes : List (Node D)) → Option (List (Node D))
  sub_column cnodes [] bnodes = some cnodes
  sub_column cnodes (anode ∷ anodes) [] = some cnodes
  sub_column [] (anode ∷ anodes) (bnode ∷ bnodes) = none
  sub_column (cnode ∷ cnodes) (anode ∷ anodes) (bnode ∷ bnodes) =
      sub_column cnodes anodes bnodes >>= λ rest. some (
        node_init (o.sub anode.real bnode.real) (o.sub anode.imag bnode.imag) anode.row anode.col
        ∷ rest)

  unfoldable pub table_sub : Table D → Table D → Table D → Option (Table D)
  unfolding sub_column
  table_sub C A B =
      loop C.columns 0 (λ i t. write_column t i (sub_column (t.head i) (A.head i) (B.head i))) C

  mult_add_real : D → Node D → Node D → D
  mult_add_real real anode bnode =
      o.add real (o.sub (o.mul anode.real bnode.real) (o.mul anode.imag bnode.imag))

  mult_add_imag : D → Node D → Node D → D
  mult_add_imag imag anode bnode =
      o.add imag (o.add (o.mul anode.real bnode.imag) (o.mul anode.imag bnode.real))

  -- The walk of `table_mult`, which follows `anode` while the other two last.
  pub mult_column : (cnodes anodes bnodes : List (Node D)) → Option (List (Node D))
  unfolding mult_add_real mult_add_imag
  mult_column cnodes anodes [] = some cnodes
  mult_column [] anodes (bnode ∷ bnodes) = some []
  mult_column (cnode ∷ cnodes) [] (bnode ∷ bnodes) = none
  mult_column (cnode ∷ cnodes) (anode ∷ anodes) (bnode ∷ bnodes) =
      mult_column cnodes anodes bnodes >>= λ rest. some (
        record cnode {
          real = mult_add_real cnode.real anode bnode;
          imag = mult_add_imag cnode.imag anode bnode;
        }
        ∷ rest)

  pub table_mult : Table D → Table D → Table D → Option (Table D)
  unfolding mult_column
  table_mult C A B =
      loop A.columns 0
        (λ k t.
          loop B.columns 0
            (λ j t'. write_column t' j (mult_column (t'.head j) (A.head k) (B.head j))) t)
        C

  -- The two sums of `correlate`, with what they are so far.
  pub real_sum : D → List (Node D) → List (Node D) → D
  real_sum sum [] ys = sum
  real_sum sum (xnode ∷ xs) [] = sum
  real_sum sum (xnode ∷ xs) (ynode ∷ ys) =
      real_sum (o.add sum (o.add (o.mul xnode.real ynode.real) (o.mul xnode.imag ynode.imag))) xs ys

  pub imag_sum : D → List (Node D) → List (Node D) → D
  imag_sum sum [] ys = sum
  imag_sum sum (xnode ∷ xs) [] = sum
  imag_sum sum (xnode ∷ xs) (ynode ∷ ys) =
      imag_sum (o.add sum (o.sub (o.mul xnode.real ynode.imag) (o.mul ynode.real xnode.imag))) xs ys

  pub correlate : Table D → Table D → Option (Table D)
  unfolding table_append real_sum imag_sum
  correlate mycarrier newtable =
      loop mycarrier.columns 0
        (λ j t.
          loop mycarrier.columns 0
            (λ i t'.
              let xs = mycarrier.head j in
              let ys = mycarrier.head i in
              table_append t'
                (node_init (real_sum (zero_double o) xs ys) (imag_sum (zero_double o) xs ys) i j))
            t)
        newtable

  -- The walk of `addition`, whose new nodes go to the column `i + j * OVERSAMPLING`.
  pub add_column : ℕ → (anodes bnodes : List (Node D)) → Table D → Option (Table D)
  unfolding table_append
  add_column col anodes [] C = some C
  add_column col [] (b ∷ bnodes) C = some C
  add_column col (a ∷ anodes) (b ∷ bnodes) C =
      table_append C (node_init (o.add a.real b.real) (o.add a.imag b.imag) a.row col)
      >>= add_column col anodes bnodes

  pub addition : Table D → Table D → Table D → Option (Table D)
  unfolding add_column read_head
  addition C A B =
      loop oversampling 0
        (λ i t.
          loop B.columns 0
            (λ j t'. read_head A (j + i * oversampling) >>= λ anodes.
              add_column (i + j * oversampling) anodes (B.head j) t')
            t)
        C

  norm2 : Node D → D
  norm2 mynode = o.add (o.mul mynode.real mynode.real) (o.mul mynode.imag mynode.imag)

  pub sigma_column : D → List (Node D) → D
  unfolding norm2
  sigma_column mysigma [] = mysigma
  sigma_column mysigma (mynode ∷ rest) =
      sigma_column (o.add mysigma (o.mul (o.decimal oversampling 0) (norm2 mynode))) rest

  -- `Eb / 10` is a division of integers.
  pub sigma : Table D → Option D
  unfolding sigma_column
  sigma mymodi =
      loop mymodi.columns 0 (λ i mysigma. some (sigma_column mysigma (mymodi.head i)))
        (zero_double o)
      >>= λ mysigma. some (
          o.sqrt (
            o.div
              (o.div mysigma (
                o.mul
                  (o.mul
                    (o.mul (o.pow (o.decimal 10 0) (o.decimal (eb / 10) 0))
                      (o.log (o.decimal modulation_level 0)))
                    (o.decimal num_blocks 0))
                  (o.decimal num_carriers 0)))
              (o.decimal 2 0)))

  pub mag : Node D → D
  unfolding norm2
  mag mynode = o.sqrt (norm2 mynode)

  -- `den` is computed and not used.
  pub divide : Node D → Node D → Node D
  divide numnode dennode =
      node_init (o.sub (o.mul numnode.real dennode.real) (o.mul numnode.imag dennode.imag))
        (o.sub (o.mul numnode.imag dennode.real) (o.mul numnode.real dennode.imag)) numnode.row
        numnode.col
