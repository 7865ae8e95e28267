-- ===== src/LinkedList/Add.antt =====
-- pthreads/linkedlist.c: `add` against the sequence of cells.
use tcp_and_parallel.Prelude.{
  ℕ, ◌≡◌, refl, sym, ap, Bool, false, Option, none, some, List, [], ◌∷◌, ◌++◌, update, ◌==◌,
  ==_self, ==_of_ne,
}
use tcp_and_parallel.LinkedList.{
  Heap, Node, Run, ok, fault, same, stored, set_next, and_then, add_end, add,
}
use tcp_and_parallel.LinkedList.Cells.{Cell, node_of, Seg, Absent, Once, Seg-update, Seg-join}
use tcp_and_parallel.LinkedList.Insert.{relink, last-node, last-apart}

module _ {M : Type 0} (equal less : M → M → Bool) where
  -- The heap with these cells, of which `end` points to the last.
  pub record EndsWith (xs : List (Cell M)) (b : Cell M) (r : Run M) : Type 0 where
    pub heap : Heap M
    pub returns : r ≡ ok heap
    pub cells : Seg heap.nodes heap.head none (xs ++ b ∷ [])
    pub end : heap.end ≡ some b.addr

  not_empty :
      (nodes : ℕ → Option (Node M)) (p q : Option ℕ) (xs : List (Cell M)) (b : Cell M)
      → Seg nodes p q (xs ++ b ∷ [])
      → same p none ≡ false
  not_empty nodes p q [] b seg = ap (λ (p : Option ℕ). same p none) seg.0
  not_empty nodes p q (x ∷ xs) b seg = ap (λ (p : Option ℕ). same p none) seg.0

  -- On a list of at least one node, whose nodes are at different addresses and whose last node is
  -- the one at end, add of a new node at another address follows no NULL pointer; the list is then
  -- the same with the new node behind its last one, and end points to it.
  pub add-EndsWith :
      (h : Heap M) (xs : List (Cell M)) (b c : Cell M) (old : Option ℕ)
      → h.nodes c.addr ≡ some (node_of c old)
      → Once (xs ++ b ∷ [])
      → Absent c.addr (xs ++ b ∷ [])
      → Seg h.nodes h.head none (xs ++ b ∷ [])
      → h.end ≡ some b.addr
      → EndsWith (xs ++ b ∷ []) c (add equal less c.addr h)
  unfolding add add_end set_next stored and_then
  add-EndsWith h xs b c old node once out seg at_end =
      let apart : b.addr == c.addr ≡ false =
        ==_of_ne b.addr c.addr (λ e. last-apart equal less c.addr xs b out (sym e)) in
      let last = last-node equal less h.nodes h.head none xs b seg in
      let linked = relink equal less h.nodes h.head none (some c.addr) xs b once seg in
      let nodes' = update h.nodes b.addr (some (node_of b (some c.addr))) in
      rw (not_empty h.nodes h.head none xs b seg, at_end, last, apart, node)
        (record {
          heap = record h {
            nodes = update nodes' c.addr (some (node_of c none));
            end = some c.addr;
          };
          returns = refl;
          cells =
              Seg-join (update nodes' c.addr (some (node_of c none))) h.head (some c.addr) none
                (xs ++ b ∷ []) (c ∷ [])
                (Seg-update nodes' c.addr _ h.head (some c.addr) (xs ++ b ∷ []) out linked)
                (refl, (none, rw (==_self c.addr), refl));
          end = refl;
        })

  -- With no node, `end` is NULL and followed.
  pub add-empty : (h : Heap M) (new : ℕ) → h.end ≡ none → add equal less new h ≡ fault
  unfolding add add_end
  add-empty h new e = rw e
