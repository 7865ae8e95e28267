-- ===== src/LinkedList/Menu/Spec.antt =====
-- pthreads/linkedlist.c: the list of the menu as messages and numbers.
use tcp_and_parallel.Prelude.{
  ℕ, ◌≡◌, ◌⊎◌, Bool, false, Option, none, List, [], ◌∷◌, ◌++◌, if◌then◌else◌,
}
use tcp_and_parallel.LinkedList.{Heap}
use tcp_and_parallel.LinkedList.Cells.{Cell, Seg, Once, last_addr}
use tcp_and_parallel.LinkedList.Menu.{
  Choice, add_name, delete_name, list_all, search_name, insert_name, Session, going, crashed,
  no_memory, overrun,
}

-- What choices make of a list: another list, or they follow NULL, or write past the end of a text.
pub data Listed (M : Type 0) : Type 0 where
  listed : List (M × ℕ) → Listed M
  null : Listed M
  past_end : Listed M

abbrev pub on_listed : {M : Type 0} → Listed M → (List (M × ℕ) → Listed M) → Listed M
on_listed (listed xs) f = f xs
on_listed null f = null
on_listed past_end f = past_end

module _ {M : Type 0} (equal less : M → M → Bool) where
  -- Before the first that is not less.
  abbrev pub put : M → ℕ → List (M × ℕ) → List (M × ℕ)
  put name id [] = (name, id) ∷ []
  put name id (x ∷ xs) =
      let rest = put name id xs in if less x.0 name then x ∷ rest else (name, id) ∷ x ∷ xs

  -- Without the first of that name.
  abbrev pub erase : M → List (M × ℕ) → List (M × ℕ)
  erase name [] = []
  erase name (x ∷ xs) = let rest = erase name xs in if equal name x.0 then xs else x ∷ rest

  -- Behind the last; there is none in an empty list.
  abbrev pub append_entry : M → ℕ → List (M × ℕ) → Listed M
  append_entry name id [] = null
  append_entry name id (x ∷ xs) = listed ((x ∷ xs) ++ (name, id) ∷ [])

  module _ (fits : M → Bool) where
    abbrev pub chosen : Choice M → List (M × ℕ) → Listed M
    chosen (add_name name id) xs = if fits name then append_entry name id xs else past_end
    chosen (delete_name name) [] = null
    chosen (delete_name name) (x ∷ xs) = listed (erase name (x ∷ xs))
    chosen list_all xs = listed xs
    chosen (search_name name) [] = null
    chosen (search_name name) (x ∷ xs) = listed (x ∷ xs)
    chosen (insert_name name id) xs = if fits name then listed (put name id xs) else past_end

    abbrev pub all_chosen : List (Choice M) → List (M × ℕ) → Listed M
    all_chosen [] xs = listed xs
    all_chosen (c ∷ cs) xs = on_listed (chosen c xs) (λ xs. all_chosen cs xs)

module _ {M : Type 0} where
  abbrev pub entry : Cell M → M × ℕ
  entry c = (c.message, c.id)

  abbrev pub entries : List (Cell M) → List (M × ℕ)
  entries [] = []
  entries (c ∷ cs) = entry c ∷ entries cs

  -- The list on the heap is these cells, each at an address of its own, and `end` points to the last.
  pub record Keeps (cs : List (Cell M)) (h : Heap M) : Type 0 where
    pub seg : Seg h.nodes h.head none cs
    pub once : Once cs
    pub end : h.end ≡ last_addr cs

  -- The heap has this list; or the program has followed NULL, where there is no list; or it has written
  -- past the end of a text; or it has got no memory for a node or for its text.
  pub data Refines (calloc : Heap M → Option ℕ) (malloc : Heap M → Bool)
      : Listed M → Session M → Type 0 where
    kept :
        (cs : List (Cell M)) (h : Heap M)
        → Keeps cs h
        → Refines calloc malloc (listed (entries cs)) (going h)
    followed_null : Refines calloc malloc null crashed
    overran : Refines calloc malloc past_end overrun
    out_of_memory :
        (xs : Listed M) (h : Heap M)
        → (calloc h ≡ none) ⊎ (malloc h ≡ false)
        → Refines calloc malloc xs no_memory
