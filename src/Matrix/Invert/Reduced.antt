-- ===== src/Matrix/Invert/Reduced.antt =====
-- sefdm/algorythms/test.list.161.c: what a round of `invert` does to the matrices that its tables hold.
use tcp_and_parallel.Prelude.{
  ℕ, ◌+◌, ◌-◌, ◌≤◌, ◌<◌, ◌≡◌, refl, ap, ◌∙◌, Option, none, some, ltb, leb, ◌&&◌, ◌==◌,
  if◌then◌else◌, Gives, Gives-some, Gives-weaken, Gives->>=, arith,
}
use tcp_and_parallel.Matrix.Table.{Doubles, Node, Table}
use tcp_and_parallel.Matrix.Spec.{Value, node_of, IsMatrix, IsMatrix_ext}
use tcp_and_parallel.Matrix.Filled.{zero_value}
use tcp_and_parallel.Matrix.Product.Entries.{
  mul_value, conjugate_mul, sub_value, table_sub-IsMatrix,
}
use tcp_and_parallel.Matrix.Rows.{copy_row_from_table, get_column_from_table}
use tcp_and_parallel.Matrix.Rows.Entries.{
  copy_row_from_table-Overwritten, copy_row_to_table-IsMatrix, get_column_from_table_lem,
}
use tcp_and_parallel.Matrix.Invert.{Local, or_same, round}
use tcp_and_parallel.Matrix.Invert.Parts.{
  IsRow, conditioned, divided, condition_row-IsRow, divide_array_by_double-IsRow,
  zero_columns-IsMatrix, compute_subtrahend-IsMatrix,
}

module _ {A : Type 0} where
  -- The columns that `compute_subtrahend` writes and those that are zeroed before.
  written_range :
      (j r c : ℕ) (u z v : A)
      → j < c
      → (if leb r j && ltb j (r + (c - r)) then u else if ltb j r then z else v)
        ≡ (if ltb j r then z else u)
  written_range j r c u z v lt = ground arith

  aug_written_range :
      (j r : ℕ) (u z v : A)
      → (if leb 0 j && ltb j (0 + (r + 1)) then u else if ltb j r then z else v)
        ≡ (if leb j r then u else v)
  aug_written_range j r u z v = ground arith

-- The matrix, its augment, and what the dummy table of the augment holds.
pub record Reduction (D : Type 0) : Type 0 where
  pub matrix : ℕ → ℕ → Value D
  pub augment : ℕ → ℕ → Value D
  pub left_over : ℕ → ℕ → Value D

module _ {D : Type 0} (o : Doubles D) where
  -- An entry of the pivot row after its division, for the pivot `p`.
  abbrev pub normalised : Value D → Value D → Value D
  normalised p v = divided o (conditioned o p p).real (conditioned o p v)

  abbrev with_row : ℕ → (ℕ → Value D) → (ℕ → ℕ → Value D) → ℕ → ℕ → Value D
  with_row r v M i j = if i == r then v j else M i j

  -- The entries that are added in place of being subtracted are those of `conjugate_mul`'s real part.
  abbrev pub aug_mul_value : Value D → Value D → Value D
  aug_mul_value x y = record { real = (conjugate_mul o x y).real; imag = (mul_value o x y).imag }

  abbrev subtrahend : ℕ → (ℕ → ℕ → Value D) → (ℕ → Value D) → ℕ → ℕ → Value D
  subtrahend r M p i j =
      if ltb j r then zero_value o else if i == r then zero_value o else mul_value o (M i r) (p j)

  abbrev aug_subtrahend :
      ℕ → (ℕ → ℕ → Value D) → (ℕ → Value D) → (ℕ → ℕ → Value D) → ℕ → ℕ → Value D
  aug_subtrahend r M p S i j =
      if leb j r then (if i == r then zero_value o else aug_mul_value (M i r) (p j)) else S i j

  -- The step of the elimination that the round makes.
  abbrev pub eliminate : ℕ → Reduction D → Reduction D
  eliminate r x =
      let p = x.matrix r r in
      let row = λ (j : ℕ). normalised p (x.matrix r j) in
      let aug_row = λ (j : ℕ). normalised p (x.augment r j) in
      let M = with_row r row x.matrix in
      let S = aug_subtrahend r M aug_row x.left_over in
      record {
        matrix = λ i j. sub_value o (M i j) (subtrahend r M row i j);
        augment = λ i j. sub_value o (with_row r aug_row x.augment i j) (S i j);
        left_over = S;
      }

  -- A table of this size, whatever its entries.
  abbrev pub HasSize : ℕ → Table D → Type 0
  HasSize n t = (M : ℕ → ℕ → Value D) × IsMatrix n n M t

  abbrev pub HasSize? : ℕ → Option (Table D) → Type 0
  HasSize? n o = (t : Table D) → o ≡ some t → HasSize n t

  -- The variables of `invert` between two rounds.
  pub record Holds (n : ℕ) (x : Reduction D) (s : Local D) : Type 0 where
    pub a : IsMatrix n n x.matrix s.a
    pub aug : IsMatrix n n x.augment s.aug
    pub prime : HasSize? n s.prime
    pub aug_prime : HasSize? n s.aug_prime
    pub subtr : HasSize n s.subtr
    pub asubtr : IsMatrix n n x.left_over s.asubtr

  or_same-HasSize :
      (n : ℕ) (t : Table D) (prime : Option (Table D))
      → HasSize n t
      → HasSize? n prime
      → HasSize n (or_same prime t)
  unfolding or_same
  or_same-HasSize n t none h k = h
  or_same-HasSize n t (some t') h k = k t' refl

  pivot-IsRow :
      (n r : ℕ) (M : ℕ → ℕ → Value D) (A : Table D) (a : ℕ → Node D)
      → r < n
      → IsMatrix n n M A
      → Gives (copy_row_from_table a A r) (IsRow n r (M r))
  pivot-IsRow n r M A a lt is =
      Gives-weaken _ (λ b e j lt'. e j ∙ ground arith)
        (copy_row_from_table-Overwritten n n M A is a r lt)

  pub round-Holds :
      (n r : ℕ) (cnodes : ℕ → Node D) (x : Reduction D) (s : Local D)
      → r < n
      → Holds n x s
      → Gives (round o n cnodes r s) (Holds n (eliminate r x))
  unfolding round
  round-Holds n r cnodes x s lt h =
      let p = x.matrix r r in
      let row = λ (j : ℕ). normalised p (x.matrix r j) in
      let aug_row = λ (j : ℕ). normalised p (x.augment r j) in
      let M = with_row r row x.matrix in
      let N = with_row r aug_row x.augment in
      let S = aug_subtrahend r M aug_row x.left_over in
      Gives->>= _ _ (pivot-IsRow n r x.matrix s.a s.rr lt h.a) (λ rr is_rr.
        Gives->>= _ _ (pivot-IsRow n r x.augment s.aug s.ar lt h.aug) (λ ar is_ar. rw (is_rr r lt) (
          Gives->>= _ _ (condition_row-IsRow o n r p (x.matrix r) rr is_rr) (λ rr' is_rr'.
            Gives->>= _ _ (condition_row-IsRow o n r p (x.augment r) ar is_ar) (λ ar' is_ar'.
              rw (is_rr' r lt) (
                Gives->>= _ _
                  (divide_array_by_double-IsRow o n r (conditioned o p p).real _ rr' is_rr')
                  (λ rr'' is_rr''.
                    Gives->>= _ _
                      (divide_array_by_double-IsRow o n r (conditioned o p p).real _ ar' is_ar')
                      (λ ar'' is_ar''.
                        Gives->>= _ _
                          (copy_row_to_table-IsMatrix n n x.matrix s.a h.a rr'' r row lt is_rr'')
                          (λ a is_a.
                            Gives->>= _ _
                              (copy_row_to_table-IsMatrix n n x.augment s.aug h.aug ar'' r aug_row
                                lt is_ar'')
                              (λ aug is_aug.
                                let is_cr : (i : ℕ)
                                    → i < n
                                    → get_column_from_table a r cnodes i ≡ node_of (M i r) i r =
                                  λ i i_lt.
                                    get_column_from_table_lem n n M a is_a r cnodes i lt i_lt in
                                let in_a : r + (a.columns - r) ≤ n = ground (arith, is_a.columns) in
                                Gives->>= _ _
                                  (zero_columns-IsMatrix o n n r h.subtr.0 s.subtr (omega arith)
                                    h.subtr.1)
                                  (λ zeroed is_zeroed.
                                    Gives->>= _ _
                                      (zero_columns-IsMatrix o n n r x.left_over s.asubtr
                                        (omega arith) h.asubtr)
                                      (λ azeroed is_azeroed.
                                        Gives->>= _ _
                                          (compute_subtrahend-IsMatrix o _ (mul_value o)
                                            (λ y c q. refl) n n r (a.columns - r) r
                                            (get_column_from_table a r cnodes) rr'' (λ i. M i r) row
                                            M _ a zeroed in_a is_cr is_rr'' is_a is_zeroed)
                                          (λ subtr is_subtr.
                                            Gives->>= _ _
                                              (compute_subtrahend-IsMatrix o _ aug_mul_value
                                                (λ y c q. refl) n n 0 (r + 1) r
                                                (get_column_from_table a r cnodes) ar'' (λ i. M i r)
                                                aug_row N _ aug azeroed (omega arith) is_cr is_ar''
                                                is_aug is_azeroed)
                                              (λ asubtr is_asubtr.
                                                let left : IsMatrix n n S asubtr =
                                                  IsMatrix_ext _ S asubtr
                                                    (λ i j i_lt j_lt. aug_written_range j r _ _ _)
                                                    is_asubtr in
                                                let prime =
                                                  or_same-HasSize n a s.prime (M, is_a) h.prime in
                                                let aug_prime =
                                                  or_same-HasSize n aug s.aug_prime (N, is_aug)
                                                    h.aug_prime in
                                                Gives->>= _ _
                                                  (table_sub-IsMatrix o n n prime.0 M _ _ a subtr
                                                    prime.1 is_a is_subtr)
                                                  (λ a' is_a'.
                                                    Gives->>= _ _
                                                      (table_sub-IsMatrix o n n aug_prime.0 N S _
                                                        aug asubtr aug_prime.1 is_aug left)
                                                      (λ aug' is_aug'. Gives-some _ (record {
                                                        a =
                                                            IsMatrix_ext _ _ a'
                                                            (λ i j i_lt j_lt.
                                                            ap (sub_value o (M i j)) (
                                                            written_range j r a.columns _ _ _
                                                            (ground (arith, is_a.columns))))
                                                            is_a';
                                                        aug = is_aug';
                                                        prime = λ t e. absurd (ground arith);
                                                        aug_prime = λ t e. absurd (ground arith);
                                                        subtr = (_, is_subtr);
                                                        asubtr = left;
                                                      })))))))))))))))))
