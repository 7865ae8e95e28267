-- ===== src/Matrix/Product/Unset.antt =====
-- sefdm/algorythms/test.list.161.c: the columns that `addition` reads.
use tcp_and_parallel.Prelude.{◌+◌, ◌-◌, ◌*◌, ◌≤◌, ◌<◌, ◌≡◌, false, none, ltb, loop-none, arith}
use tcp_and_parallel.Matrix.Table.{Doubles, Table}
use tcp_and_parallel.Matrix.Product.{read_head, addition}

module _ {D : Type 0} (o : Doubles D) where
  -- When B has a column and A has no more than one column more than B, addition comes to use a head
  -- of A that table_init has not set, which is not defined.
  pub addition_unset :
      (C A B : Table D) → 0 < B.columns → A.columns ≤ B.columns + 1 → addition o C A B ≡ none
  unfolding addition read_head
  addition_unset C A B some_column few = loop-none _ 1 2 0 C (omega arith) (omega arith) (λ t.
      loop-none _ (B.columns - 1) B.columns 0 t (omega arith) (omega arith) (λ t'.
        let unset : ltb (B.columns - 1 + 1 * 2) A.columns ≡ false = ground arith in rw unset))
