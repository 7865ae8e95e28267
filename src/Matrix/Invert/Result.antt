-- ===== src/Matrix/Invert/Result.antt =====
-- sefdm/algorythms/test.list.161.c: what `invert` leaves in the augment.
use tcp_and_parallel.Prelude.{
  ℕ, zero, suc, ◌+◌, ◌≤◌, ◌≡◌, refl, ap, subst, some, Gives, Gives-weaken, Gives->>=, Gives-for,
  arith,
}
use tcp_and_parallel.Matrix.Table.{Doubles, Node, Table, table_init}
use tcp_and_parallel.Matrix.Spec.{Value, column, IsMatrix, IsEmptyTable, all_columns}
use tcp_and_parallel.Matrix.Filled.{zero_value, copy_table-IsMatrix, dummy_init-IsMatrix}
use tcp_and_parallel.Matrix.Invert.{copy_values, invert}
use tcp_and_parallel.Matrix.Invert.Parts.{copy_values-column}
use tcp_and_parallel.Matrix.Invert.Reduced.{Reduction, eliminate, HasSize, Holds, round-Holds}

module _ {D : Type 0} (o : Doubles D) where
  -- The elimination of the first `k` columns, one after the other.
  abbrev pub eliminated : ℕ → Reduction D → Reduction D
  eliminated zero x = x
  eliminated (suc k) x = eliminate o k (eliminated k x)

  abbrev pub at_first : (M N : ℕ → ℕ → Value D) → Reduction D
  at_first M N = record { matrix = M; augment = N; left_over = λ i j. zero_value o }

  table_init-IsEmptyTable :
      (m n rows columns : ℕ) → rows ≡ m → columns ≡ n → IsEmptyTable m n (table_init o rows columns)
  unfolding table_init
  table_init-IsEmptyTable m n rows columns e e' = record {
    rows = e;
    columns = e';
    heads = λ j lt. refl;
  }

  -- On tables that hold square matrices of at least two rows, invert follows no NULL pointer, and
  -- the augment then holds what two steps of the elimination, for the first two columns, make of
  -- it, whatever the size; the other values of the arrays that malloc gives do not matter.
  pub invert-IsMatrix :
      (rr ar : ℕ → Node D) (cnodes : ℕ → ℕ → Node D) (n : ℕ) (M N : ℕ → ℕ → Value D)
      → (mytable augment : Table D) → 2 ≤ n
      → IsMatrix n n M mytable
      → IsMatrix n n N augment
      → Gives
          (invert o rr ar cnodes mytable augment)
          (IsMatrix n n (eliminated 2 (at_first M N)).augment)
  unfolding invert
  invert-IsMatrix rr ar cnodes n M N mytable augment le is is_aug =
      let empty = table_init-IsEmptyTable n n mytable.rows mytable.columns is.rows is.columns in
      let empty_aug =
        table_init-IsEmptyTable n n augment.rows augment.columns is_aug.rows is_aug.columns in
      let size : (t : Table D) → IsMatrix n n (λ i j. zero_value o) t → HasSize o n t =
        λ t z. ((λ i j. zero_value o), z) in
      Gives->>= _ _ (copy_table-IsMatrix n n M mytable _ is empty) (λ a is_a.
        Gives->>= _ _ (copy_table-IsMatrix n n N augment _ is_aug empty_aug) (λ aug is_aug'.
          Gives->>= _ _ (dummy_init-IsMatrix o n n _ empty) (λ subtr is_subtr.
            Gives->>= _ _ (dummy_init-IsMatrix o n n _ empty) (λ asubtr is_asubtr.
              Gives->>= _ _ (dummy_init-IsMatrix o n n _ empty) (λ prime is_prime.
                Gives->>= _ _ (dummy_init-IsMatrix o n n _ empty_aug) (λ aug_prime is_aug_prime.
                  Gives->>= _ _
                    (Gives-for (λ k. Holds o n (eliminated k (at_first M N))) _ 2 2 _ refl
                      (record {
                        a = is_a;
                        aug = is_aug';
                        subtr = size subtr is_subtr;
                        asubtr = is_asubtr;
                        prime = λ t e.
                            size t
                              (subst (IsMatrix n n (λ i j. zero_value o)) (ground arith) is_prime);
                        aug_prime = λ t e. size t (
                            subst (IsMatrix n n (λ i j. zero_value o)) (ground arith) is_aug_prime);
                      })
                      (λ k s lt h.
                        let next : suc k ≡ k + 1 = omega arith in
                        Gives-weaken _
                          (λ s' h'.
                            subst (λ (x : ℕ). Holds o n (eliminated x (at_first M N)) s') next h')
                          (rw is.columns (
                            round-Holds o n k (cnodes k) (eliminated k (at_first M N)) s
                              (omega arith) h))))
                    (λ s h.
                      all_columns (λ j c. some (copy_values c (s.aug.head j)))
                        (λ j. column n 0 j (λ i. (eliminated 2 (at_first M N)).augment i j))
                        (λ j. column n 0 j (λ i. N i j)) augment.columns augment is_aug.columns
                        (λ j lt.
                          rw (h.aug.heads j lt) (ap some (copy_values-column n 0 j (λ i. N i j) _)))
                        is_aug)))))))
