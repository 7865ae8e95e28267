-- ===== src/Matrix/Rows/RoundTrip.antt =====
-- sefdm/algorythms/test.list.161.c: a row that is copied to a table and back.
use tcp_and_parallel.Prelude.{
  ℕ, ◌<◌, ◌≡◌, ◌∙◌, ◌==◌, if◌then◌else◌, ◌>>=◌, Gives, Gives-weaken, Gives->>=, arith,
}
use tcp_and_parallel.Matrix.Table.{Node, Table}
use tcp_and_parallel.Matrix.Spec.{Value, node_of, IsMatrix}
use tcp_and_parallel.Matrix.Rows.{copy_row_from_table, copy_row_to_table}
use tcp_and_parallel.Matrix.Rows.Entries.{
  copy_row_from_table-Overwritten, copy_row_to_table-IsMatrix,
}

module _ {D : Type 0} (m n r : ℕ) (M : ℕ → ℕ → Value D) (t : Table D) where
  -- When the nodes of an array are a row of the size of a table that holds a matrix, with the
  -- number of one of its rows, then copy_row_to_table and after it copy_row_from_table into any
  -- array give the same nodes.
  pub copy_row_round_trip :
      (a b : ℕ → Node D) (v : ℕ → Value D)
      → r < m
      → IsMatrix m n M t
      → ((j : ℕ) → j < n → a j ≡ node_of (v j) r j)
      → Gives
          (copy_row_to_table t a r >>= λ t'. copy_row_from_table b t' r)
          (λ c. (j : ℕ) → j < n → c j ≡ a j)
  copy_row_round_trip a b v lt is row =
      Gives->>= _ _ (copy_row_to_table-IsMatrix m n M t is a r v lt row) (λ t' is'.
        Gives-weaken _ (λ c e j lt'. e j ∙ ground (arith, row j lt'))
          (copy_row_from_table-Overwritten m n (λ i j. if i == r then v j else M i j) t' is' b r
            lt))
