-- ===== src/Tests/Matrix.antt =====
-- Runs of sefdm/algorythms/test.list.161.c, with natural numbers for the doubles.
use tcp_and_parallel.Prelude.{
  ℕ, zero, suc, ◌+◌, ◌-◌, ◌*◌, ◌/◌, ◌<◌, ◌≡◌, refl, [], none, ◌==◌, ◌>>=◌, Gives, arith,
}
use tcp_and_parallel.Matrix.Table.{
  Doubles, Node, Table, node_init, table_append, transpose, identity_init,
}
use tcp_and_parallel.Matrix.Spec.{Value, column, IsMatrix, IsEmptyTable}
use tcp_and_parallel.Matrix.Filled.{identity_value, identity_init-IsMatrix, transpose-IsMatrix}
use tcp_and_parallel.Matrix.Chain.{Cell, Linked, linked_append}
use tcp_and_parallel.Matrix.Chain.Appended.{IsLinked, more, table_append-IsLinked}
use tcp_and_parallel.Matrix.Product.{table_sub, table_mult, correlate, addition}
use tcp_and_parallel.Matrix.Product.Entries.{
  sub_value, mul_value, sum_onto, products, table_sub-IsMatrix, table_mult-IsMatrix,
  correlate-IsMatrix,
}
use tcp_and_parallel.Matrix.Product.Unset.{addition_unset}
use tcp_and_parallel.Matrix.Rows.{copy_row_from_table, copy_row_to_table}
use tcp_and_parallel.Matrix.Rows.RoundTrip.{copy_row_round_trip}
use tcp_and_parallel.Matrix.Invert.{invert}
use tcp_and_parallel.Matrix.Invert.Result.{eliminated, at_first, invert-IsMatrix}

abbrev doubles : Doubles ℕ
doubles = record {
  add = λ x y. x + y;
  sub = λ x y. x - y;
  mul = λ x y. x * y;
  div = λ x y. x / y;
  decimal = λ m e. m;
  is_zero = λ x. x == 0;
  ceil = λ x. x;
  sqrt = λ x. x;
  sin = λ x. x;
  cos = λ x. x;
  log = λ x. x;
  pow = λ x y. x;
}

abbrev value : ℕ → ℕ → Value ℕ
value x y = record { real = x; imag = y }

-- 3 1 / 2 5, without imaginary parts.
abbrev square : ℕ → ℕ → Value ℕ
square zero zero = value 3 0
square zero (suc j) = value 1 0
square (suc i) zero = value 2 0
square (suc i) (suc j) = value 5 0

abbrev table_of : (m n : ℕ) → (ℕ → ℕ → Value ℕ) → Table ℕ
table_of m n M = record { rows = m; columns = n; norm = 0; head = λ j. column m 0 j (λ i. M i j) }

abbrev is_table : (m n : ℕ) (M : ℕ → ℕ → Value ℕ) → IsMatrix m n M (table_of m n M)
is_table m n M = record { rows = refl; columns = refl; heads = λ j lt. refl }

abbrev new_table : (m n : ℕ) → Table ℕ
new_table m n = record { rows = m; columns = n; norm = 0; head = λ j. [] }

abbrev is_new : (m n : ℕ) → IsEmptyTable m n (new_table m n)
is_new m n = record { rows = refl; columns = refl; heads = λ j lt. refl }

abbrev no_nodes : ℕ → Node ℕ
no_nodes i = node_init 7 7 7 7

abbrev zeros : ℕ → ℕ → Value ℕ
zeros i j = value 0 0

difference_of_squares :
    Gives
      (table_sub doubles (table_of 2 2 zeros) (table_of 2 2 square) (table_of 2 2 zeros))
      (IsMatrix 2 2 (λ i j. sub_value doubles (square i j) (zeros i j)))
difference_of_squares =
    table_sub-IsMatrix doubles 2 2 zeros square zeros (table_of 2 2 zeros) (table_of 2 2 square)
      (table_of 2 2 zeros) (is_table 2 2 zeros) (is_table 2 2 square) (is_table 2 2 zeros)

-- The squares' product would be 11 8 / 16 27; the code gives (3 + 1) * 3, ...
table_mult-IsMatrix_example :
    Gives (table_mult doubles (table_of 2 2 zeros) (table_of 2 2 square) (table_of 2 2 square)) (
      IsMatrix 2 2
        (λ i j. sum_onto doubles (zeros i j) 2 (λ k. mul_value doubles (square i k) (square i j))))
table_mult-IsMatrix_example =
    table_mult-IsMatrix doubles 2 2 2 zeros square square (table_of 2 2 zeros) (table_of 2 2 square)
      (table_of 2 2 square) (is_table 2 2 zeros) (is_table 2 2 square) (is_table 2 2 square)

correlate-IsMatrix_example :
    Gives
      (correlate doubles (table_of 2 2 square) (new_table 2 2))
      (IsMatrix 2 2 (λ i j. products doubles (λ p. square p j) (λ p. square p i) 2))
correlate-IsMatrix_example =
    correlate-IsMatrix doubles 2 2 square (table_of 2 2 square) (new_table 2 2)
      (is_table 2 2 square) (is_new 2 2)

transpose-IsMatrix_example :
    Gives (transpose (table_of 2 2 square) (new_table 2 2)) (IsMatrix 2 2 (λ i j. square j i))
transpose-IsMatrix_example =
    transpose-IsMatrix 2 2 square (table_of 2 2 square) (new_table 2 2) (is_table 2 2 square)
      (is_new 2 2)

identity_init-IsMatrix_example :
    Gives (identity_init doubles (new_table 2 3)) (IsMatrix 2 3 (identity_value doubles))
identity_init-IsMatrix_example = identity_init-IsMatrix doubles 2 3 (new_table 2 3) (is_new 2 3)

copy_row_round_trip_example :
    Gives
      (copy_row_to_table (table_of 2 2 square) (λ j. node_init 9 9 1 j) 1 >>= λ t.
        copy_row_from_table no_nodes t 1)
      (λ c. (j : ℕ) → j < 2 → c j ≡ node_init 9 9 1 j)
copy_row_round_trip_example =
    copy_row_round_trip 2 2 1 square (table_of 2 2 square) (λ j. node_init 9 9 1 j) no_nodes
      (λ j. value 9 9) (omega arith) (is_table 2 2 square) (λ j lt. refl)

-- The tables of `main` have 10 columns each.
addition_unset_example :
    addition doubles (new_table 10 20) (table_of 10 10 zeros) (table_of 10 10 zeros) ≡ none
addition_unset_example =
    addition_unset doubles (new_table 10 20) (table_of 10 10 zeros) (table_of 10 10 zeros)
      (omega arith) (omega arith)

invert-IsMatrix_example :
    Gives
      (invert doubles no_nodes no_nodes
        (λ r. no_nodes)
        (table_of 2 2 square)
        (table_of 2 2 (identity_value doubles)))
      (IsMatrix 2 2
        (eliminated doubles 2 (at_first doubles square (identity_value doubles))).augment)
invert-IsMatrix_example =
    invert-IsMatrix doubles no_nodes no_nodes (λ r. no_nodes) 2 square (identity_value doubles)
      (table_of 2 2 square) (table_of 2 2 (identity_value doubles)) (omega arith)
      (is_table 2 2 square) (is_table 2 2 (identity_value doubles))

abbrev loose_cells : ℕ → Cell ℕ
loose_cells a = record { node = node_init 4 5 0 1; next = none }

abbrev no_links : Linked ℕ
no_links = record { cells = loose_cells; head = λ c. none; tail = λ c. none }

no_links-IsLinked : IsLinked (λ c. []) (new_table 2 2) no_links
no_links-IsLinked = record {
  links = λ c lt. refl;
  tails = λ c lt. refl;
  once = λ c lt. tt;
  apart = λ c d q lt lt' ne e. tt;
  nodes = λ c lt. refl;
}

table_append-IsLinked_example :
    Gives
      (table_append (new_table 2 2) (node_init 4 5 0 1))
      (λ t. IsLinked (more (λ c. []) no_links 6) t (linked_append no_links 6))
table_append-IsLinked_example =
    table_append-IsLinked (λ c. []) (new_table 2 2) no_links 6 no_links-IsLinked (omega arith)
      (λ c lt. tt)
