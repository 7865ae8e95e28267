-- ===== src/LinkedList/Menu/Nodes.antt =====
-- pthreads/linkedlist.c: a node comes or goes by the menu.
use tcp_and_parallel.Prelude.{
  ℕ, ◌≤◌, ◌≡◌, refl, sym, subst, Bool, Bool-cases, if◌then◌else◌, inl, inr, Option, none, some,
  List, [], ◌∷◌, ◌++◌, update, length, ==_self,
}
use tcp_and_parallel.LinkedList.{Heap, found, Run, insertnode}
use tcp_and_parallel.LinkedList.Cells.{Cell, Absent, Once, first_addr, node_of, Seg-update}
use tcp_and_parallel.LinkedList.Search.{tail_of}
use tcp_and_parallel.LinkedList.Insert.{take_while-drop_while, Holds}
use tcp_and_parallel.LinkedList.Place.{insertnode-Holds}
use tcp_and_parallel.LinkedList.Delete.{deletenode-Holds}
use tcp_and_parallel.LinkedList.Menu.{of_run, fill_text, init_at, delete_found}
use tcp_and_parallel.LinkedList.Menu.Spec.{
  Listed, listed, past_end, put, entries, Keeps, Refines, kept, overran, out_of_memory,
}
use tcp_and_parallel.LinkedList.Menu.Entries.{free-Absent, Once-put, Once-without, entries-put}

module _ {M : Type 0} (equal less : M → M → Bool) (calloc : Heap M → Option ℕ)
    (malloc : Heap M → Bool) (fits : M → Bool) where
  pub run-Refines :
      (cs : List (Cell M)) (r : Run M)
      → Holds equal less cs r
      → Once cs
      → Refines calloc malloc (listed (entries cs)) (of_run r)
  unfolding of_run
  run-Refines cs r g once =
      rw g.returns (kept cs g.heap (record { seg = g.cells; once = once; end = g.end }))

  pub delete_at-Refines :
      (k : ℕ) (h : Heap M) (zs ys : List (Cell M))
      → Keeps (zs ++ ys) h
      → length zs ≤ k
      → Refines calloc malloc
          (listed (entries (zs ++ tail_of equal less ys)))
          (delete_found equal less calloc malloc fits k (found (first_addr ys)) h)
  unfolding delete_found
  delete_at-Refines k h zs [] keeps enough = kept (zs ++ []) h keeps
  delete_at-Refines k h zs (b ∷ ys) keeps enough =
      run-Refines (zs ++ ys) _
        (deletenode-Holds equal less k h zs b ys keeps.once keeps.seg keeps.end enough)
        (Once-without equal less zs b ys keeps.once)

  abbrev pub with_node : Cell M → Heap M → Heap M
  with_node c h = record h { nodes = update h.nodes c.addr (some (node_of c none)) }

  -- What `main` does with the node holds for any that is new.
  pub init-Refines :
      (xs : Listed M) (message : M) (id : ℕ) (use_node : ℕ → Heap M → Run M) (h : Heap M)
      (o : Option ℕ)
      → calloc h ≡ o
      → ((ptr : ℕ)
          → o ≡ some ptr
          → Refines calloc malloc xs (
              of_run
                (use_node ptr (with_node (record { addr = ptr; message = message; id = id }) h))))
      → Refines calloc malloc
          (if fits message then xs else past_end)
          (init_at equal less calloc malloc fits o message id use_node h)
  unfolding init_at fill_text
  init-Refines xs message id use_node h none e rest = out_of_memory _ h (inl e)
  init-Refines xs message id use_node h (some ptr) e rest = elim (Bool-cases (malloc h)) [
    | inr no_text ↦ rw no_text (out_of_memory _ h (inr no_text))
    | inl text ↦ elim (Bool-cases (fits message)) [
      | inl fit ↦ rw (text, fit) (rest ptr refl)
      | inr long ↦ rw (text, long) overran
    ]
  ]

  pub insert-Refines :
      (k : ℕ) (h : Heap M) (c : Cell M) (cs : List (Cell M))
      → h.nodes c.addr ≡ none
      → Keeps cs h
      → length cs ≤ k
      → Refines calloc malloc
          (listed (put equal less c.message c.id (entries cs)))
          (of_run (insertnode equal less k c.addr (with_node c h)))
  insert-Refines k h c cs new keeps enough =
      let goes : M → Bool = λ m. less m c.message in
      let out = free-Absent equal less h.nodes c.addr h.head none cs new keeps.seg in
      let whole = sym (take_while-drop_while equal less goes cs) in
      subst
        (λ (xs : List (M × ℕ)).
          Refines calloc malloc (listed xs)
            (of_run (insertnode equal less k c.addr (with_node c h))))
        (entries-put equal less c cs)
        (run-Refines _ _
          (insertnode-Holds equal less k (with_node c h) c none cs (rw (==_self c.addr) refl)
            keeps.once out (Seg-update h.nodes c.addr _ h.head none cs out keeps.seg) keeps.end
            enough)
          (Once-put equal less _ c _ (subst Once whole keeps.once)
            (subst (Absent c.addr) whole out)))
