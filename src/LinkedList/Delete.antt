-- ===== src/LinkedList/Delete.antt =====
-- pthreads/linkedlist.c: `deletenode` against the sequence of cells.
use tcp_and_parallel.Prelude.{
  ℕ, ◌≡◌, ◌≢◌, refl, sym, ap, subst, ◌∙◌, Bool, true, false, Option, none, some, List, [], ◌∷◌,
  ◌++◌, if◌then◌else◌, update, arith, length, ◌<◌, ◌≤◌,
}
use tcp_and_parallel.LinkedList.{
  Heap, same, found, prev_of, stored, set_next, and_then, free, unlink_node, unlink, delete_first,
  deletenode,
}
use tcp_and_parallel.LinkedList.Cells.{
  Cell, last_addr, last_addr-append, node_of, Seg, Absent, Once, Seg-split, Seg-update, Seg-join,
}
use tcp_and_parallel.LinkedList.Search.{NotIn, same_self, same_of_ne, prev_of-last}
use tcp_and_parallel.LinkedList.Insert.{
  Holds, NotIn-first, NotIn-tail_of, Absent-append, relink, last-node, Once-front, Absent-last,
  Once-at,
}
use tcp_and_parallel.LinkedList.Between.{snoc}
use tcp_and_parallel.LinkedList.Ends.{last_addr-without}

module _ {M : Type 0} (equal less : M → M → Bool) where
  Absent-middle :
      (xs : List (Cell M)) (b : Cell M) (ys : List (Cell M))
      → Once (xs ++ b ∷ ys)
      → Absent b.addr (xs ++ ys)
  Absent-middle [] b ys h = h.0
  Absent-middle (x ∷ xs) b ys h = (
    (λ e. (Absent-append equal less x.addr xs (b ∷ ys) h.0).1.0 (sym e)),
    Absent-middle xs b ys h.1,
  )

  first-Holds :
      (h : Heap M) (b : Cell M) (ys : List (Cell M)) (k : ℕ)
      → Once (b ∷ ys)
      → Seg h.nodes h.head none (b ∷ ys)
      → h.end ≡ last_addr (b ∷ ys)
      → Holds equal less ys (deletenode equal less k b.addr h)
  unfolding deletenode delete_first free
  first-Holds h b ys k once (at, (next, node, rest)) at_end =
      let here : same (some b.addr) h.head ≡ true =
        ap (same (some b.addr)) at ∙ same_self equal less (some b.addr) in
      rw (here, node)
        (record {
          heap = record h {
            nodes = update h.nodes b.addr none;
            head = next;
            end = if same h.end (some b.addr) then next else h.end;
          };
          returns = refl;
          cells = Seg-update h.nodes b.addr none next none ys once.0 rest;
          end =
              last_addr-without equal less h.end next [] b ys once.0 at_end
                (λ e. subst (λ (ws : List (Cell M)). Seg h.nodes next none ws) e rest);
        })

  later-Holds :
      (k : ℕ) (h : Heap M) (xs : List (Cell M)) (p b : Cell M) (ys : List (Cell M))
      → Once ((xs ++ p ∷ []) ++ b ∷ ys)
      → Seg h.nodes h.head none ((xs ++ p ∷ []) ++ b ∷ ys)
      → h.end ≡ last_addr ((xs ++ p ∷ []) ++ b ∷ ys)
      → length xs < k
      → Holds equal less ((xs ++ p ∷ []) ++ ys) (deletenode equal less k b.addr h)
  unfolding deletenode unlink unlink_node set_next stored and_then free
  later-Holds k h xs p b ys once seg at_end enough =
      let (mid, l, (at, (next, node, rest))) =
        Seg-split h.nodes h.head none (xs ++ p ∷ []) (b ∷ ys) seg in
      let l' : Seg h.nodes h.head (some b.addr) (xs ++ p ∷ []) =
        subst (λ (m : Option ℕ). Seg h.nodes h.head m (xs ++ p ∷ [])) at l in
      let out = NotIn-first equal less (xs ++ p ∷ []) (b ∷ ys) once in
      let away : same (some b.addr) h.head ≡ false =
        same_of_ne equal less (some b.addr) h.head (apart xs l' out) in
      let prev : prev_of equal less k h (some b.addr) h.head ≡ found (some p.addr) =
        prev_of-last equal less k h h.head (some b.addr) xs p l'
          (NotIn-tail_of equal less (some b.addr) (xs ++ p ∷ []) out) enough in
      let nodes' = update h.nodes p.addr (some (node_of p next)) in
      rw (away, prev, node, last-node equal less h.nodes h.head (some b.addr) xs p l')
        (record {
          heap = record h {
            nodes = update nodes' b.addr none;
            end = if same h.end (some b.addr) then some p.addr else h.end;
          };
          returns = refl;
          cells =
              Seg-update nodes' b.addr none h.head none ((xs ++ p ∷ []) ++ ys)
                (Absent-middle (xs ++ p ∷ []) b ys once)
                (Seg-join nodes' h.head next none (xs ++ p ∷ []) ys
                  (relink equal less h.nodes h.head (some b.addr) next xs p
                    (Once-front equal less (xs ++ p ∷ []) (b ∷ ys) once) l')
                  (Seg-update h.nodes p.addr _ next none ys
                    (Absent-last equal less xs p (b ∷ ys) once).1 rest));
          end =
              last_addr-without equal less h.end (some p.addr) (xs ++ p ∷ []) b ys
                (Once-at equal less (xs ++ p ∷ []) b ys once) at_end
                (λ e. sym (last_addr-append xs p []));
        })
    where
      apart :
          (xs : List (Cell M))
          → Seg h.nodes h.head (some b.addr) (xs ++ p ∷ [])
          → NotIn equal less (some b.addr) (xs ++ p ∷ [])
          → some b.addr ≢ h.head
      apart [] l n = λ e. n.0 (e ∙ l.0)
      apart (x ∷ xs) l n = λ e. n.0 (e ∙ l.0)

  -- On a list whose nodes are at different addresses and whose last node is the one at end, and with
  -- fuel for every node, `deletenode` of one of them follows no NULL pointer and no freed node, and
  -- ends; the list is then the same without it, and end points to its last node.
  pub deletenode-Holds :
      (k : ℕ) (h : Heap M) (xs : List (Cell M)) (b : Cell M) (ys : List (Cell M))
      → Once (xs ++ b ∷ ys)
      → Seg h.nodes h.head none (xs ++ b ∷ ys)
      → h.end ≡ last_addr (xs ++ b ∷ ys)
      → length xs ≤ k
      → Holds equal less (xs ++ ys) (deletenode equal less k b.addr h)
  deletenode-Holds k h [] b ys once seg at_end enough = first-Holds h b ys k once seg at_end
  deletenode-Holds k h (z ∷ zs) b ys once seg at_end enough =
      let (xs, (p, e, n)) = snoc equal less z zs in
      subst (λ (ws : List (Cell M)). Holds equal less (ws ++ ys) (deletenode equal less k b.addr h))
        (sym e)
        (later-Holds k h xs p b ys (subst (λ (ws : List (Cell M)). Once (ws ++ b ∷ ys)) e once)
          (subst (λ (ws : List (Cell M)). Seg h.nodes h.head none (ws ++ b ∷ ys)) e seg)
          (subst (λ (ws : List (Cell M)). h.end ≡ last_addr (ws ++ b ∷ ys)) e at_end)
          (omega (arith, n)))
