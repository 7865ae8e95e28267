-- ===== src/Matrix/Rows.antt =====
-- sefdm/algorythms/test.list.161.c: rows as arrays of nodes. The nodes of an array are distinct; those
-- of `get_column_from_table` are the table's own.
pub mod Entries
pub mod RoundTrip
use tcp_and_parallel.Prelude.{
  ℕ, zero, suc, ◌+◌, Bool, true, false, List, [], ◌∷◌, Option, none, some, if◌then◌else◌, update,
  ◌==◌, ◌>>=◌, loop,
}
use tcp_and_parallel.Matrix.Table.{Doubles, Node, Table, node_init, node_set, node_copy, set_column}

module _ {D : Type 0} where
  -- The walk of `copy_row_from_table` down one column, to the first node of the row.
  pub find_row : ℕ → List (Node D) → Option (Node D)
  find_row row [] = none
  find_row row (mynode ∷ rest) = if mynode.row == row then some mynode else find_row row rest

  keep_or_copy : Option (Node D) → ℕ → (ℕ → Node D) → ℕ → Node D
  keep_or_copy none i array = array
  keep_or_copy (some mynode) i array = update array i (node_copy mynode)

  unfoldable pub copy_row_from_table : (ℕ → Node D) → Table D → ℕ → Option (ℕ → Node D)
  unfolding find_row keep_or_copy
  copy_row_from_table array mytable row =
      loop mytable.columns 0
        (λ i array'. some (keep_or_copy (find_row row (mytable.head i)) i array')) array

  -- The walk of `copy_row_to_table`: `memcpy` on the first node of the row, which keeps its `next`.
  pub replace_row : ℕ → Node D → List (Node D) → List (Node D)
  replace_row row new [] = []
  replace_row row new (mynode ∷ rest) =
      if mynode.row == row then new ∷ rest else mynode ∷ replace_row row new rest

  unfoldable pub copy_row_to_table : Table D → (ℕ → Node D) → ℕ → Option (Table D)
  unfolding replace_row
  copy_row_to_table mytable array row =
      loop mytable.columns 0 (λ i t. some (set_column t i (replace_row row (array i) (t.head i))))
        mytable

  pub place_nodes : List (Node D) → (ℕ → Node D) → ℕ → Node D
  place_nodes [] cnodes = cnodes
  place_nodes (mynode ∷ rest) cnodes = place_nodes rest (update cnodes mynode.row mynode)

  -- `cnodes` is what `malloc` gives.
  unfoldable pub get_column_from_table : Table D → ℕ → (ℕ → Node D) → ℕ → Node D
  unfolding place_nodes
  get_column_from_table mytable column cnodes = place_nodes (mytable.head column) cnodes

module _ {D : Type 0} (o : Doubles D) where
  abbrev million : D
  million = o.decimal 1000000 0

  unfoldable pub mult_node : Node D → Node D → Node D
  mult_node row node =
      node_set row (o.sub (o.mul row.real node.real) (o.mul row.imag node.imag))
        (o.add (o.mul row.real node.imag) (o.mul row.imag node.real))

  unfoldable pub mult_array_by_node : (ℕ → Node D) → Node D → ℕ → Option (ℕ → Node D)
  unfolding mult_node
  mult_array_by_node row node length =
      loop length 0 (λ i row'. some (update row' i (mult_node (row' i) node))) row

  unfoldable pub rounded : D → D → D
  rounded x denominator = o.div (o.ceil (o.mul (o.div x denominator) million)) million

  unfoldable pub divide_node : D → Node D → Node D
  unfolding rounded
  divide_node denominator mynode =
      node_set mynode (rounded mynode.real denominator) (rounded mynode.imag denominator)

  unfoldable pub divide_array_by_double : (ℕ → Node D) → ℕ → D → Option (ℕ → Node D)
  unfolding divide_node
  divide_array_by_double myarray length denominator =
      loop length 0 (λ i array. some (update array i (divide_node denominator (array i)))) myarray
