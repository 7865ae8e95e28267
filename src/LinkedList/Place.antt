-- ===== src/LinkedList/Place.antt =====
-- pthreads/linkedlist.c: `insertnode` puts the new node before the first that is not less.
use tcp_and_parallel.Prelude.{
  ℕ, ◌≡◌, ◌≢◌, refl, sym, ap, subst, ◌∙◌, Bool, Option, none, some, List, [], ◌∷◌, ◌++◌, update,
  Bool-cases, ==_self, inl, inr, arith, length, ◌<◌, ◌≤◌,
}
use tcp_and_parallel.LinkedList.{
  Heap, found, walk, stored, set_next, and_then, insert_at, insert_first, insert_from, insertnode,
}
use tcp_and_parallel.LinkedList.Cells.{
  Cell, last_addr, first_addr, node_of, Seg, Absent, Once, Seg-split, Seg-first, Seg-update,
}
use tcp_and_parallel.LinkedList.Search.{drop_while, walk-drop_while, NotIn, same_self, same_of_ne}
use tcp_and_parallel.LinkedList.Insert.{take_while, take_while-drop_while, Holds, NotIn-first}
use tcp_and_parallel.LinkedList.Between.{insert_between-Holds, snoc}

module _ {M : Type 0} (equal less : M → M → Bool) where
  front-Holds :
      (k : ℕ) (h : Heap M) (c : Cell M) (old : Option ℕ) (ys : List (Cell M))
      → h.nodes c.addr ≡ some (node_of c old)
      → Absent c.addr ys
      → Seg h.nodes h.head none ys
      → h.end ≡ last_addr (c ∷ ys)
      → Holds equal less (c ∷ ys) (insert_at equal less k c.addr (found (first_addr ys)) h)
  unfolding insert_at set_next and_then stored
  front-Holds k h c old ys node out seg at_end =
      let at : first_addr ys ≡ h.head = sym (Seg-first h.nodes h.head ys seg) in
      rw (at, same_self equal less h.head, node)
        (record {
          heap = record h {
            nodes = update h.nodes c.addr (some (node_of c h.head));
            head = some c.addr;
          };
          returns = refl;
          cells = (
            refl,
            (h.head, rw (==_self c.addr) refl, Seg-update h.nodes c.addr _ h.head none ys out seg),
          );
          end = at_end;
        })

  back-Holds :
      (k : ℕ) (h : Heap M) (c : Cell M) (old : Option ℕ) (xs : List (Cell M)) (b : Cell M)
      (ys : List (Cell M))
      → h.nodes c.addr ≡ some (node_of c old)
      → Once ((xs ++ b ∷ []) ++ ys)
      → Absent c.addr ((xs ++ b ∷ []) ++ ys)
      → Seg h.nodes h.head none ((xs ++ b ∷ []) ++ ys)
      → h.end ≡ last_addr ((xs ++ b ∷ []) ++ ys)
      → length xs < k
      → Holds equal less
          ((xs ++ b ∷ []) ++ c ∷ ys)
          (insert_at equal less k c.addr (found (first_addr ys)) h)
  unfolding insert_at
  back-Holds k h c old xs b ys node once out seg at_end enough =
      let (mid, l, r) = Seg-split h.nodes h.head none (xs ++ b ∷ []) ys seg in
      let at : mid ≡ first_addr ys = Seg-first h.nodes mid ys r in
      let l' : Seg h.nodes h.head (first_addr ys) (xs ++ b ∷ []) =
        subst (λ (m : Option ℕ). Seg h.nodes h.head m (xs ++ b ∷ [])) at l in
      let r' : Seg h.nodes (first_addr ys) none ys =
        subst (λ (m : Option ℕ). Seg h.nodes m none ys) at r in
      let away : first_addr ys ≢ h.head =
        apart xs l' (NotIn-first equal less (xs ++ b ∷ []) ys once) in
      rw (same_of_ne equal less (first_addr ys) h.head away) (
        insert_between-Holds equal less k h c old (first_addr ys) xs b ys node once out l' r' at_end
          enough)
    where
      apart :
          (xs : List (Cell M))
          → Seg h.nodes h.head (first_addr ys) (xs ++ b ∷ [])
          → NotIn equal less (first_addr ys) (xs ++ b ∷ [])
          → first_addr ys ≢ h.head
      apart [] l n = λ e. n.0 (e ∙ l.0)
      apart (x ∷ xs) l n = λ e. n.0 (e ∙ l.0)

  -- The loop has stopped after the cells `zs`.
  insert_at-Holds :
      (k : ℕ) (h : Heap M) (c : Cell M) (old : Option ℕ) (zs ys : List (Cell M))
      → h.nodes c.addr ≡ some (node_of c old)
      → Once (zs ++ ys)
      → Absent c.addr (zs ++ ys)
      → Seg h.nodes h.head none (zs ++ ys)
      → h.end ≡ last_addr (zs ++ ys)
      → 0 < length (zs ++ ys)
      → length zs ≤ k
      → Holds equal less (zs ++ c ∷ ys) (insert_at equal less k c.addr (found (first_addr ys)) h)
  insert_at-Holds k h c old [] [] node once out seg at_end some_there enough = absurd (omega arith)
  insert_at-Holds k h c old [] (y ∷ ys) node once out seg at_end some_there enough =
      front-Holds k h c old (y ∷ ys) node out seg at_end
  insert_at-Holds k h c old (z ∷ zs) ys node once out seg at_end some_there enough =
      let (xs, (b, e, n)) = snoc equal less z zs in
      subst
        (λ (ws : List (Cell M)).
          Holds equal less (ws ++ c ∷ ys) (insert_at equal less k c.addr (found (first_addr ys)) h))
        (sym e)
        (back-Holds k h c old xs b ys node (subst (λ (ws : List (Cell M)). Once (ws ++ ys)) e once)
          (subst (λ (ws : List (Cell M)). Absent c.addr (ws ++ ys)) e out)
          (subst (λ (ws : List (Cell M)). Seg h.nodes h.head none (ws ++ ys)) e seg)
          (subst (λ (ws : List (Cell M)). h.end ≡ last_addr (ws ++ ys)) e at_end)
          (omega (arith, n)))

  pub length-take_while :
      (goes : M → Bool) (cs : List (Cell M)) → length (take_while equal less goes cs) ≤ length cs
  length-take_while goes [] = omega arith
  length-take_while goes (c ∷ cs) = elim (Bool-cases (goes c.message)) [
    | inl on ↦ rw on (omega (arith, length-take_while goes cs))
    | inr stop ↦ rw stop (omega arith)
  ]

  -- On a list whose nodes are at different addresses and whose last node is the one at end, with the
  -- new node at another address and fuel for every node, `insertnode` follows no NULL pointer and ends.
  -- The list is then the same with the new node before the first one whose message is not less than its
  -- own, and end points to its last node.
  pub insertnode-Holds :
      (k : ℕ) (h : Heap M) (c : Cell M) (old : Option ℕ) (cs : List (Cell M))
      → h.nodes c.addr ≡ some (node_of c old)
      → Once cs
      → Absent c.addr cs
      → Seg h.nodes h.head none cs
      → h.end ≡ last_addr cs
      → length cs ≤ k
      → Holds equal less
          (take_while equal less (λ m. less m c.message) cs
            ++ c ∷ drop_while equal less (λ m. less m c.message) cs)
          (insertnode equal less k c.addr h)
  unfolding insertnode insert_from insert_first and_then set_next stored
  insertnode-Holds k h c old [] node once out seg at_end enough =
      subst (Holds equal less (c ∷ []))
        (sym (
          ap (λ o. insert_from equal less k c.addr o h.head h) node
          ∙ ap (λ p. insert_from equal less k c.addr (some (node_of c old)) p h) seg))
        (rw node (record {
          heap = record h {
            nodes = update h.nodes c.addr (some (node_of c none));
            head = some c.addr;
            end = some c.addr;
          };
          returns = refl;
          cells = (refl, (none, rw (==_self c.addr) refl, refl));
          end = refl;
        }))
  insertnode-Holds k h c old (d ∷ ds) node once out seg at_end enough =
      let goes : M → Bool = λ m. less m c.message in
      let zs = take_while equal less goes (d ∷ ds) in
      let ys = drop_while equal less goes (d ∷ ds) in
      let whole : d ∷ ds ≡ zs ++ ys = sym (take_while-drop_while equal less goes (d ∷ ds)) in
      let stops : walk equal less goes k h (some d.addr) ≡ found (first_addr ys) =
        ap (λ (p : Option ℕ). walk equal less goes k h p) (sym seg.0)
        ∙ walk-drop_while equal less goes k h h.head d ds seg (omega arith) in
      subst (Holds equal less (zs ++ c ∷ ys))
        (sym (
          ap (λ o. insert_from equal less k c.addr o h.head h) node
          ∙ (ap (λ p. insert_from equal less k c.addr (some (node_of c old)) p h) seg.0
              ∙ ap (λ w. insert_at equal less k c.addr w h) stops)))
        (insert_at-Holds k h c old zs ys node (subst Once whole once)
          (subst (Absent c.addr) whole out) (subst (Seg h.nodes h.head none) whole seg)
          (subst (λ (ws : List (Cell M)). h.end ≡ last_addr ws) whole at_end)
          (subst (λ (ws : List (Cell M)). 0 < length ws) whole (omega arith))
          (omega (arith, length-take_while goes (d ∷ ds))))
