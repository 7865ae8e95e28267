-- ===== src/Tests/Menu.antt =====
-- Runs of the menu of pthreads/linkedlist.c, with numbers for messages and room for two nodes.
use tcp_and_parallel.Prelude.{
  ℕ, ◌≡◌, refl, sym, ap, ◌∙◌, Bool, true, Option, none, some, List, [], ◌∷◌, ◌==◌, ltb, arith,
}
use tcp_and_parallel.LinkedList.{Heap, Node, add, add_end}
use tcp_and_parallel.LinkedList.Menu.{
  Choice, add_name, delete_name, list_all, search_name, insert_name, crashed, overrun, of_run,
  fill_text, init_at, initnode, choose, then_go_on, menu,
}
use tcp_and_parallel.LinkedList.Menu.Spec.{listed, all_chosen, Keeps, Refines}
use tcp_and_parallel.LinkedList.Menu.Refined.{menu-Refines}

abbrev first_free : Option (Node ℕ) → Option (Node ℕ) → Option ℕ
first_free none two = some 1
first_free (some x) none = some 2
first_free (some x) (some y) = none

abbrev place : Heap ℕ → Option ℕ
place h = first_free (h.nodes 1) (h.nodes 2)

abbrev text : Heap ℕ → Bool
text h = true

-- Two digits fit.
abbrev short : ℕ → Bool
short n = ltb n 100

abbrev no_list : Heap ℕ
no_list = record { nodes = λ a. none; head = none; end = none }

abbrev choices : List (Choice ℕ)
choices =
    insert_name 20 7
    ∷ insert_name 10 8
    ∷ delete_name 20
    ∷ add_name 5 9
    ∷ search_name 5
    ∷ list_all
    ∷ []

abbrev sorted_then_added : List (ℕ × ℕ)
sorted_then_added = (10, 8) ∷ (5, 9) ∷ []

chosen_list : all_chosen ◌==◌ ltb short choices [] ≡ listed sorted_then_added
chosen_list = refl

some_addr : (a b : ℕ) → some a ≡ some b → a ≡ b
some_addr a b e = cc

new_place :
    (h : Heap ℕ) (one two : Option (Node ℕ))
    → h.nodes 1 ≡ one
    → h.nodes 2 ≡ two
    → (a : ℕ) → first_free one two ≡ some a
    → h.nodes a ≡ none
new_place h none two e f a at = ap h.nodes (sym (some_addr 1 a at)) ∙ e
new_place h (some x) none e f a at = ap h.nodes (sym (some_addr 2 a at)) ∙ f
new_place h (some x) (some y) e f a at = absurd (cc)

no_list-Keeps : Keeps [] no_list
no_list-Keeps = record { seg = refl; once = tt; end = refl }

menu-Refines_example :
    Refines place text (listed sorted_then_added) (menu ◌==◌ ltb place text short 9 choices no_list)
menu-Refines_example =
    menu-Refines ◌==◌ ltb place text short
      (λ h a at. new_place h (h.nodes 1) (h.nodes 2) refl refl a at) 9 choices [] no_list
      no_list-Keeps (ground arith)

-- A name is added to an empty list.
added_to_none : menu ◌==◌ ltb place text short 9 (add_name 5 9 ∷ []) no_list ≡ crashed
unfolding menu choose initnode init_at fill_text of_run then_go_on add add_end
added_to_none = refl

-- A name is too long for its text.
too_long : menu ◌==◌ ltb place text short 9 (insert_name 100 9 ∷ []) no_list ≡ overrun
unfolding menu choose initnode init_at fill_text of_run then_go_on
too_long = refl
