-- ===== src/LinkedList/Menu/Refined.antt =====
-- pthreads/linkedlist.c: the menu against a list of messages and numbers.
use tcp_and_parallel.Prelude.{
  ℕ, zero, suc, ◌+◌, ◌<◌, ◌≡◌, refl, sym, subst, ◌∙◌, Bool, not, Option, none, some, List, [], ◌∷◌,
  ◌++◌, length, arith, ==_self,
}
use tcp_and_parallel.LinkedList.{Heap, found, fault, walk, searchname, add}
use tcp_and_parallel.LinkedList.Cells.{
  Cell, Seg, Absent, Once, first_addr, last_addr, node_of, last_addr-append, Seg-update,
}
use tcp_and_parallel.LinkedList.Search.{drop_while, searchname-drop_while}
use tcp_and_parallel.LinkedList.Insert.{take_while, take_while-drop_while}
use tcp_and_parallel.LinkedList.Place.{length-take_while}
use tcp_and_parallel.LinkedList.Between.{snoc}
use tcp_and_parallel.LinkedList.Ends.{append_nil}
use tcp_and_parallel.LinkedList.Add.{add-EndsWith, add-empty, EndsWith}
use tcp_and_parallel.LinkedList.Menu.{
  Choice, add_name, delete_name, list_all, search_name, insert_name, Session, going, of_run,
  initnode, delete_found, show_found, choose, then_go_on, menu,
}
use tcp_and_parallel.LinkedList.Menu.Spec.{
  Listed, listed, on_listed, append_entry, chosen, all_chosen, entries, Keeps, Refines, kept,
  followed_null, overran, out_of_memory,
}
use tcp_and_parallel.LinkedList.Menu.Entries.{
  free-Absent, Once-put, entries-append, entries-erase, length-entries, length-chosen,
}
use tcp_and_parallel.LinkedList.Menu.Nodes.{
  delete_at-Refines, init-Refines, with_node, insert-Refines,
}

module _ {M : Type 0} (equal less : M → M → Bool) (calloc : Heap M → Option ℕ)
    (malloc : Heap M → Bool) (fits : M → Bool) where
  add-Refines :
      (h : Heap M) (c : Cell M) (cs : List (Cell M))
      → h.nodes c.addr ≡ none
      → Keeps cs h
      → Refines calloc malloc
          (append_entry equal less c.message c.id (entries cs))
          (of_run (add equal less c.addr (with_node equal less calloc malloc fits c h)))
  unfolding of_run
  add-Refines h c [] new keeps =
      rw (add-empty equal less (with_node equal less calloc malloc fits c h) c.addr keeps.end)
        followed_null
  add-Refines h c (z ∷ zs) new keeps =
      let (xs, (b, e, n)) = snoc equal less z zs in
      let out = free-Absent equal less h.nodes c.addr h.head none (z ∷ zs) new keeps.seg in
      let seg =
        Seg-update h.nodes c.addr (some (node_of c none)) h.head none (z ∷ zs) out keeps.seg in
      let g : EndsWith equal less (xs ++ b ∷ []) c
          (add equal less c.addr (with_node equal less calloc malloc fits c h)) =
        add-EndsWith equal less (with_node equal less calloc malloc fits c h) xs b c none
          (rw (==_self c.addr) refl) (subst Once e keeps.once) (subst (Absent c.addr) e out)
          (subst
            (λ (ws : List (Cell M)).
              Seg (with_node equal less calloc malloc fits c h).nodes h.head none ws)
            e seg)
          (subst (λ (ws : List (Cell M)). h.end ≡ last_addr ws) e keeps.end
            ∙ last_addr-append xs b []) in
      let g' : EndsWith equal less (z ∷ zs) c
          (add equal less c.addr (with_node equal less calloc malloc fits c h)) =
        subst
          (λ (ws : List (Cell M)).
            EndsWith equal less ws c
              (add equal less c.addr (with_node equal less calloc malloc fits c h)))
          (sym e) g in
      rw g'.returns (
        subst (λ (ys : List (M × ℕ)). Refines calloc malloc (listed ys) (going g'.heap))
          (entries-append equal less (z ∷ zs) (c ∷ []))
          (kept ((z ∷ zs) ++ c ∷ []) g'.heap (record {
            seg = g'.cells;
            once = Once-back (z ∷ zs) keeps.once out;
            end = g'.end ∙ sym (last_addr-append (z ∷ zs) c []);
          })))
    where
      Once-back : (cs : List (Cell M)) → Once cs → Absent c.addr cs → Once (cs ++ c ∷ [])
      Once-back cs once out =
          Once-put equal less cs c [] (subst Once (sym (append_nil equal less cs)) once)
            (subst (Absent c.addr) (sym (append_nil equal less cs)) out)

  -- The search of an empty list follows NULL.
  searchname-null :
      (k : ℕ) (h : Heap M) (name : M)
      → h.head ≡ none
      → 0 < k
      → searchname equal less k h h.head name ≡ fault
  unfolding searchname walk
  searchname-null zero h name null enough = absurd (omega arith)
  searchname-null (suc k) h name null enough = rw null refl

  delete-Refines :
      (k : ℕ) (h : Heap M) (name : M) (cs : List (Cell M))
      → Keeps cs h
      → length cs < k
      → Refines calloc malloc
          (chosen equal less fits (delete_name name) (entries cs))
          (choose equal less calloc malloc fits k (delete_name name) h)
  unfolding choose delete_found searchname
  delete-Refines k h name [] keeps enough =
      rw (searchname-null k h name keeps.seg (omega arith)) followed_null
  delete-Refines k h name (c ∷ cs) keeps enough =
      let goes : M → Bool = λ m. not (equal name m) in
      let whole = sym (take_while-drop_while equal less goes (c ∷ cs)) in
      let short = length-take_while equal less goes (c ∷ cs) in
      rw (searchname-drop_while equal less k h c cs name keeps.seg (omega arith)) (
        subst
          (λ (xs : List (M × ℕ)). Refines calloc malloc (listed xs) (
            delete_found equal less calloc malloc fits k
              (found (first_addr (drop_while equal less goes (c ∷ cs)))) h))
          (sym (entries-erase equal less name (c ∷ cs)))
          (delete_at-Refines equal less calloc malloc fits k h (take_while equal less goes (c ∷ cs))
            (drop_while equal less goes (c ∷ cs))
            (subst (λ (ws : List (Cell M)). Keeps ws h) whole keeps) (omega arith)))

  search-Refines :
      (k : ℕ) (h : Heap M) (name : M) (cs : List (Cell M))
      → Keeps cs h
      → length cs < k
      → Refines calloc malloc
          (chosen equal less fits (search_name name) (entries cs))
          (choose equal less calloc malloc fits k (search_name name) h)
  unfolding choose show_found searchname
  search-Refines k h name [] keeps enough =
      rw (searchname-null k h name keeps.seg (omega arith)) followed_null
  search-Refines k h name (c ∷ cs) keeps enough =
      rw (searchname-drop_while equal less k h c cs name keeps.seg (omega arith))
        (kept (c ∷ cs) h keeps)

  choose-Refines :
      (new : (h : Heap M) (a : ℕ) → calloc h ≡ some a → h.nodes a ≡ none) (k : ℕ) (c : Choice M)
      (cs : List (Cell M)) (h : Heap M)
      → Keeps cs h
      → length cs < k
      → Refines calloc malloc
          (chosen equal less fits c (entries cs))
          (choose equal less calloc malloc fits k c h)
  unfolding choose initnode
  choose-Refines new k (add_name name id) cs h keeps enough =
      init-Refines equal less calloc malloc fits _ name id _ h (calloc h) refl
        (λ a e. add-Refines h (record { addr = a; message = name; id = id }) cs (new h a e) keeps)
  choose-Refines new k (delete_name name) cs h keeps enough =
      delete-Refines k h name cs keeps enough
  choose-Refines new k list_all cs h keeps enough = kept cs h keeps
  choose-Refines new k (search_name name) cs h keeps enough =
      search-Refines k h name cs keeps enough
  choose-Refines new k (insert_name name id) cs h keeps enough =
      init-Refines equal less calloc malloc fits _ name id _ h (calloc h) refl (λ a e.
        insert-Refines equal less calloc malloc fits k h
          (record { addr = a; message = name; id = id }) cs (new h a e) keeps (omega arith))

  then-Refines :
      (later : List (Choice M)) (k : ℕ) (o : Listed M) (r : Session M)
      → Refines calloc malloc o r
      → ((cs : List (Cell M)) (h : Heap M)
          → Keeps cs h
          → o ≡ listed (entries cs)
          → Refines calloc malloc
              (all_chosen equal less fits later (entries cs))
              (menu equal less calloc malloc fits k later h))
      → Refines calloc malloc (on_listed o (λ xs. all_chosen equal less fits later xs)) (
          then_go_on equal less calloc malloc fits r
            (λ h. menu equal less calloc malloc fits k later h))
  unfolding then_go_on
  then-Refines later k o r (kept cs h keeps) rest = rest cs h keeps refl
  then-Refines later k o r followed_null rest = followed_null
  then-Refines later k o r overran rest = overran
  then-Refines later k o r (out_of_memory xs h e) rest = out_of_memory _ h e

  -- When the address that calloc returns is that of no node, and with fuel for every node and choice
  -- and one more, any choices of the menu, from a list whose nodes are at different addresses and whose
  -- last node is the one at end, end. Then the list is what they make of a list of messages and numbers,
  -- its nodes are at different addresses, and end points to the last one; or they have followed NULL,
  -- which they do when a name is added to, deleted from or searched in an empty list; or strcpy has
  -- written past the end of a text, which it does when a name that is added or inserted does not fit the
  -- size of a pointer; or calloc or malloc has returned NULL.
  pub menu-Refines :
      (new : (h : Heap M) (a : ℕ) → calloc h ≡ some a → h.nodes a ≡ none) (k : ℕ)
      (picks : List (Choice M)) (cs : List (Cell M)) (h : Heap M)
      → Keeps cs h
      → length cs + length picks < k
      → Refines calloc malloc
          (all_chosen equal less fits picks (entries cs))
          (menu equal less calloc malloc fits k picks h)
  unfolding menu
  menu-Refines new k [] cs h keeps enough = kept cs h keeps
  menu-Refines new k (c ∷ later) cs h keeps enough =
      then-Refines later k _ _ (choose-Refines new k c cs h keeps (omega arith)) (λ ds h' keeps' e.
        let longer = length-chosen equal less fits c (entries cs) (entries ds) e in
        let old = length-entries equal less cs in
        let now = length-entries equal less ds in
        menu-Refines new k later ds h' keeps' (omega arith))
