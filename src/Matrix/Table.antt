-- ===== src/Matrix/Table.antt =====
-- sefdm/algorythms/test.list.161.c: nodes, tables and the arithmetic of doubles. A column is the list
-- of the nodes from `head[i]` to `tail[i]`; Matrix/Chain.antt relates it to the pointers.
use tcp_and_parallel.Prelude.{
  ℕ, Bool, List, [], ◌∷◌, ◌++◌, Option, none, some, ltb, if◌then◌else◌, update, ◌==◌, ◌>>=◌, loop,
}

-- What the program computes with doubles. `decimal m e` is the literal m / 10 ^ e.
pub record Doubles (D : Type 0) : Type 0 where
  pub add : D → D → D
  pub sub : D → D → D
  pub mul : D → D → D
  pub div : D → D → D
  pub decimal : ℕ → ℕ → D
  pub is_zero : D → Bool
  pub ceil : D → D
  pub sqrt : D → D
  pub sin : D → D
  pub cos : D → D
  pub log : D → D
  pub pow : D → D → D

pub record Node (D : Type 0) : Type 0 where
  pub row : ℕ
  pub col : ℕ
  pub real : D
  pub imag : D

pub record Table (D : Type 0) : Type 0 where
  pub rows : ℕ
  pub columns : ℕ
  pub norm : D
  pub head : ℕ → List (Node D)

module _ {D : Type 0} where
  abbrev pub node_init : D → D → ℕ → ℕ → Node D
  node_init in_real in_imag in_row in_col = record {
    row = in_row;
    col = in_col;
    real = in_real;
    imag = in_imag;
  }

  abbrev pub node_set : Node D → D → D → Node D
  node_set mynode in_real in_imag = record mynode { real = in_real; imag = in_imag }

  abbrev pub node_copy : Node D → Node D
  node_copy mynode = node_init mynode.real mynode.imag mynode.row mynode.col

  abbrev pub set_column : Table D → ℕ → List (Node D) → Table D
  set_column mytable i nodes = record mytable { head = update mytable.head i nodes }

  -- Another column than those whose head and tail `table_init` sets is a fault.
  unfoldable pub table_append : Table D → Node D → Option (Table D)
  table_append mytable mynode =
      if ltb mynode.col mytable.columns
      then some (set_column mytable mynode.col (mytable.head mynode.col ++ mynode ∷ []))
      else none

module _ {D : Type 0} (o : Doubles D) where
  abbrev pub zero_double : D
  zero_double = o.decimal 0 0

  abbrev pub one_double : D
  one_double = o.decimal 1 0

  unfoldable pub table_init : ℕ → ℕ → Table D
  table_init in_rows in_columns = record {
    rows = in_rows;
    columns = in_columns;
    norm = zero_double;
    head = λ i. [];
  }

  unfoldable pub identity_init : Table D → Option (Table D)
  unfolding table_append
  identity_init mytable =
      loop mytable.columns 0
        (λ j t.
          loop t.rows 0
            (λ i t'.
              table_append t'
                (node_init (if i == j then one_double else zero_double) zero_double i j))
            t)
        mytable

  unfoldable pub zero_init : Table D → Option (Table D)
  unfolding table_append
  zero_init mytable =
      loop mytable.columns 0
        (λ j t. loop t.rows 0 (λ i t'. table_append t' (node_init zero_double zero_double i j)) t)
        mytable

  -- The dummy tables of `invert`, filled row by row.
  unfoldable pub dummy_init : Table D → Option (Table D)
  unfolding table_append
  dummy_init mytable =
      loop mytable.rows 0
        (λ i t.
          loop t.columns 0 (λ j t'. table_append t' (node_init zero_double zero_double i j)) t)
        mytable

-- The walk of a column from its head.
module _ {D : Type 0} where
  unfoldable pub append_nodes : (Node D → Node D) → List (Node D) → Table D → Option (Table D)
  unfolding table_append
  append_nodes make [] t = some t
  append_nodes make (mynode ∷ rest) t = table_append t (make mynode) >>= append_nodes make rest

  unfoldable pub transpose : Table D → Table D → Option (Table D)
  unfolding append_nodes
  transpose mytable newtable =
      loop mytable.columns 0
        (λ i t. append_nodes (λ n. node_init n.real n.imag n.col n.row) (mytable.head i) t) newtable

  -- The copies of the matrix and of its augment at the start of `invert`.
  unfoldable pub copy_table : Table D → Table D → Option (Table D)
  unfolding append_nodes
  copy_table mytable newtable =
      loop mytable.columns 0 (λ i t. append_nodes node_copy (mytable.head i) t) newtable
