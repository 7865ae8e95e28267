-- ===== src/LinkedList/Menu.antt =====
-- pthreads/linkedlist.c: `initnode`, and the menu of `main` as a sequence of choices. What is printed
-- is left out.
pub mod Entries
pub mod Refined
pub mod Nodes
pub mod Spec
use tcp_and_parallel.Prelude.{
  ℕ, Bool, true, false, if◌then◌else◌, Option, none, some, List, [], ◌∷◌, update,
}
use tcp_and_parallel.LinkedList.{
  Heap, Node, Walk, found, fault, out_of_fuel, Run, ok, searchname, add, insertnode, deletenode,
}

-- What is chosen, with what is entered.
pub data Choice (M : Type 0) : Type 0 where
  add_name : M → ℕ → Choice M
  delete_name : M → Choice M
  list_all : Choice M
  search_name : M → Choice M
  insert_name : M → ℕ → Choice M

pub data Session (M : Type 0) : Type 0 where
  going : Heap M → Session M
  crashed : Session M
  no_memory : Session M  -- `initnode` writes to a node or a text that it did not get
  overrun : Session M  -- `strcpy` writes past the end of the text that `initnode` got
  no_fuel : Session M

unfoldable pub of_run : {M : Type 0} → Run M → Session M
of_run (ok h) = going h
of_run fault = crashed
of_run out_of_fuel = no_fuel

-- `calloc` is where the new node is, or NULL; `malloc` says whether there is memory for its text, of
-- `sizeof (message)` bytes, which is the size of a pointer; `fits` says whether a message with its end is
-- no longer than that.
module _ {M : Type 0} (equal less : M → M → Bool) (calloc : Heap M → Option ℕ)
    (malloc : Heap M → Bool) (fits : M → Bool) where
  -- From `strcpy` on, by what `malloc` has given. `use_node` is what `main` does with the node.
  unfoldable pub fill_text : Bool → ℕ → M → ℕ → (ℕ → Heap M → Run M) → Heap M → Session M
  unfolding of_run
  fill_text false ptr message id use_node h = no_memory
  fill_text true ptr message id use_node h =
      if fits message
      then of_run (
          use_node ptr (record h {
            nodes = update h.nodes ptr (some (record { message = message; id = id; next = none }));
          }))
      else overrun

  unfoldable pub init_at : Option ℕ → M → ℕ → (ℕ → Heap M → Run M) → Heap M → Session M
  unfolding fill_text
  init_at none message id use_node h = no_memory
  init_at (some ptr) message id use_node h = fill_text (malloc h) ptr message id use_node h

  unfoldable pub initnode : M → ℕ → (ℕ → Heap M → Run M) → Heap M → Session M
  unfolding init_at
  initnode message id use_node h = init_at (calloc h) message id use_node h

  unfoldable pub delete_found : ℕ → Walk → Heap M → Session M
  unfolding of_run
  delete_found k (found none) h = going h
  delete_found k (found (some ptr)) h = of_run (deletenode equal less k ptr h)
  delete_found k fault h = crashed
  delete_found k out_of_fuel h = no_fuel

  unfoldable pub show_found : Walk → Heap M → Session M
  show_found (found ptr) h = going h
  show_found fault h = crashed
  show_found out_of_fuel h = no_fuel

  unfoldable pub choose : ℕ → Choice M → Heap M → Session M
  unfolding initnode delete_found show_found
  choose k (add_name name id) h = initnode name id (λ ptr h. add equal less ptr h) h
  choose k (delete_name name) h = delete_found k (searchname equal less k h h.head name) h
  choose k list_all h = going h
  choose k (search_name name) h = show_found (searchname equal less k h h.head name) h
  choose k (insert_name name id) h = initnode name id (λ ptr h. insertnode equal less k ptr h) h

  unfoldable pub then_go_on : Session M → (Heap M → Session M) → Session M
  then_go_on (going h) later = later h
  then_go_on crashed later = crashed
  then_go_on no_memory later = no_memory
  then_go_on overrun later = overrun
  then_go_on no_fuel later = no_fuel

  unfoldable pub menu : ℕ → List (Choice M) → Heap M → Session M
  unfolding choose then_go_on
  menu k [] h = going h
  menu k (c ∷ later) h = then_go_on (choose k c h) (λ h. menu k later h)
