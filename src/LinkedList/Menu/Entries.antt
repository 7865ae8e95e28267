-- ===== src/LinkedList/Menu/Entries.antt =====
-- pthreads/linkedlist.c: what a choice of the menu makes of the cells, and of their addresses.
use tcp_and_parallel.Prelude.{
  ℕ, suc, ◌+◌, ◌≤◌, ◌≡◌, ◌≢◌, refl, sym, ap, ◌∙◌, Bool, true, false, if◌then◌else◌, not, Bool-cases,
  inl, inr, Option, none, some, List, [], ◌∷◌, ◌++◌, length, length-append, arith,
}
use tcp_and_parallel.LinkedList.{Node}
use tcp_and_parallel.LinkedList.Cells.{Cell, Seg, Absent, Once, node_of}
use tcp_and_parallel.LinkedList.Search.{drop_while, tail_of}
use tcp_and_parallel.LinkedList.Insert.{take_while}
use tcp_and_parallel.LinkedList.Menu.{
  Choice, add_name, delete_name, list_all, search_name, insert_name,
}
use tcp_and_parallel.LinkedList.Menu.Spec.{
  Listed, listed, past_end, append_entry, put, erase, chosen, entry, entries,
}

module _ {M : Type 0} (equal less : M → M → Bool) where
  pub free-Absent :
      (nodes : ℕ → Option (Node M)) (a : ℕ) (p q : Option ℕ) (cs : List (Cell M))
      → nodes a ≡ none
      → Seg nodes p q cs
      → Absent a cs
  free-Absent nodes a p q [] free seg = tt
  free-Absent nodes a p q (c ∷ cs) free (at, (next, node, rest)) = (
    (λ e. let other : nodes a ≡ some (node_of c next) = ap nodes e ∙ node in cc),
    free-Absent nodes a next q cs free rest,
  )

  pub Once-put :
      (zs : List (Cell M)) (c : Cell M) (ys : List (Cell M))
      → Once (zs ++ ys)
      → Absent c.addr (zs ++ ys)
      → Once (zs ++ c ∷ ys)
  Once-put [] c ys once out = (out, once)
  Once-put (z ∷ zs) c ys once out =
      (Absent-put z.addr zs once.0 (λ e. out.0 (sym e)), Once-put zs c ys once.1 out.1)
    where
      Absent-put :
          (a : ℕ) (zs : List (Cell M)) → Absent a (zs ++ ys) → a ≢ c.addr → Absent a (zs ++ c ∷ ys)
      Absent-put a [] out ne = (ne, out)
      Absent-put a (z ∷ zs) out ne = (out.0, Absent-put a zs out.1 ne)

  pub Once-without :
      (zs : List (Cell M)) (b : Cell M) (ys : List (Cell M)) → Once (zs ++ b ∷ ys) → Once (zs ++ ys)
  Once-without [] b ys once = once.1
  Once-without (z ∷ zs) b ys once = (Absent-without z.addr zs once.0, Once-without zs b ys once.1)
    where
      Absent-without : (a : ℕ) (zs : List (Cell M)) → Absent a (zs ++ b ∷ ys) → Absent a (zs ++ ys)
      Absent-without a [] out = out.1
      Absent-without a (z ∷ zs) out = (out.0, Absent-without a zs out.1)

  pub entries-put :
      (c : Cell M) (cs : List (Cell M))
      → entries (
          take_while equal less (λ m. less m c.message) cs
          ++ c ∷ drop_while equal less (λ m. less m c.message) cs)
        ≡ put equal less c.message c.id (entries cs)
  entries-put c [] = refl
  entries-put c (d ∷ ds) = elim (Bool-cases (less d.message c.message)) [
    | inl on ↦ rw on (ap (λ (xs : List (M × ℕ)). entry d ∷ xs) (entries-put c ds))
    | inr stop ↦ rw stop refl
  ]

  pub entries-append : (xs ys : List (Cell M)) → entries (xs ++ ys) ≡ entries xs ++ entries ys
  entries-append [] ys = refl
  entries-append (x ∷ xs) ys = ap (λ (zs : List (M × ℕ)). entry x ∷ zs) (entries-append xs ys)

  pub entries-erase :
      (name : M) (cs : List (Cell M))
      → erase equal less name (entries cs)
        ≡ entries (
            take_while equal less (λ m. not (equal name m)) cs
            ++ tail_of equal less (drop_while equal less (λ m. not (equal name m)) cs))
  entries-erase name [] = refl
  entries-erase name (d ∷ ds) = elim (Bool-cases (equal name d.message)) [
    | inl same_name ↦ rw same_name refl
    | inr other ↦ rw other (ap (λ (xs : List (M × ℕ)). entry d ∷ xs) (entries-erase name ds))
  ]

  length-put :
      (name : M) (id : ℕ) (xs : List (M × ℕ)) → length (put equal less name id xs) ≡ length xs + 1
  length-put name id [] = refl
  length-put name id (x ∷ xs) = elim (Bool-cases (less x.0 name)) [
    | inl on ↦ rw on (omega (arith, length-put name id xs))
    | inr stop ↦ rw stop (omega arith)
  ]

  length-erase : (name : M) (xs : List (M × ℕ)) → length (erase equal less name xs) ≤ length xs
  length-erase name [] = omega arith
  length-erase name (x ∷ xs) = elim (Bool-cases (equal name x.0)) [
    | inl same_name ↦ rw same_name (omega arith)
    | inr other ↦ rw other (omega (arith, length-erase name xs))
  ]

  pub length-entries : (cs : List (Cell M)) → length (entries cs) ≡ length cs
  length-entries [] = refl
  length-entries (c ∷ cs) = ap suc (length-entries cs)

  listed_length : (xs ys : List (M × ℕ)) → listed xs ≡ listed ys → length ys ≡ length xs
  listed_length xs ys e = cc

  length-append_entry :
      (name : M) (id : ℕ) (xs ys : List (M × ℕ))
      → append_entry equal less name id xs ≡ listed ys
      → length ys ≤ length xs + 1
  length-append_entry name id [] ys e = absurd (cc)
  length-append_entry name id (x ∷ xs) ys e =
      omega (arith, listed_length _ ys e, length-append xs ((name, id) ∷ []))

  -- What is listed although the name has to fit, is listed.
  if-listed :
      (b : Bool) (l : Listed M) (ys : List (M × ℕ))
      → (if b then l else past_end) ≡ listed ys
      → l ≡ listed ys
  if-listed true l ys e = e
  if-listed false l ys e = absurd (cc)

  pub length-chosen :
      (fits : M → Bool) (c : Choice M) (xs ys : List (M × ℕ))
      → chosen equal less fits c xs ≡ listed ys
      → length ys ≤ length xs + 1
  length-chosen fits (add_name name id) xs ys e =
      length-append_entry name id xs ys (if-listed (fits name) _ ys e)
  length-chosen fits (delete_name name) [] ys e = absurd (cc)
  length-chosen fits (delete_name name) (x ∷ xs) ys e =
      omega (arith, listed_length _ ys e, length-erase name (x ∷ xs))
  length-chosen fits list_all xs ys e = omega (arith, listed_length _ ys e)
  length-chosen fits (search_name name) [] ys e = absurd (cc)
  length-chosen fits (search_name name) (x ∷ xs) ys e = omega (arith, listed_length _ ys e)
  length-chosen fits (insert_name name id) xs ys e =
      omega (arith, listed_length _ ys (if-listed (fits name) _ ys e), length-put name id xs)
