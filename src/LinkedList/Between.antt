-- ===== src/LinkedList/Between.antt =====
-- pthreads/linkedlist.c: `insertnode` between two nodes.
use tcp_and_parallel.Prelude.{
  ℕ, suc, ◌≡◌, ◌≢◌, refl, sym, ap, subst, Bool, true, false, Option, none, some, List, [], ◌∷◌,
  ◌++◌, if◌then◌else◌, update, ==_self, ==_of_ne, length, ◌<◌,
}
use tcp_and_parallel.LinkedList.{
  Heap, same, found, prev_of, ok, stored, set_next, and_then, insert_between,
}
use tcp_and_parallel.LinkedList.Cells.{
  Cell, last_addr, node_of, Seg, Absent, Once, Seg-first, Seg-update, Seg-join,
}
use tcp_and_parallel.LinkedList.Search.{NotIn, prev_of-last}
use tcp_and_parallel.LinkedList.Insert.{
  Holds, NotIn-first, NotIn-tail_of, Absent-append, relink, last-node, Once-front, last-apart,
  Absent-last,
}
use tcp_and_parallel.LinkedList.Ends.{last_addr-behind, last_addr-before}

module _ {M : Type 0} (equal less : M → M → Bool) where
  pub Holds-if :
      (cs : List (Cell M)) (b : Bool) (x y : Heap M)
      → (b ≡ true → Holds equal less cs (ok x))
      → (b ≡ false → Holds equal less cs (ok y))
      → Holds equal less cs (ok (if b then x else y))
  Holds-if cs true x y h k = h refl
  Holds-if cs false x y h k = k refl

  pub insert_between-Holds :
      (k : ℕ) (h : Heap M) (c : Cell M) (old temp : Option ℕ) (xs : List (Cell M)) (b : Cell M)
      (ys : List (Cell M))
      → h.nodes c.addr ≡ some (node_of c old)
      → Once ((xs ++ b ∷ []) ++ ys)
      → Absent c.addr ((xs ++ b ∷ []) ++ ys)
      → Seg h.nodes h.head temp (xs ++ b ∷ [])
      → Seg h.nodes temp none ys
      → h.end ≡ last_addr ((xs ++ b ∷ []) ++ ys)
      → length xs < k
      → Holds equal less
          ((xs ++ b ∷ []) ++ c ∷ ys)
          (insert_between equal less c.addr temp (prev_of equal less k h temp h.head) h)
  unfolding insert_between set_next and_then stored
  insert_between-Holds k h c old temp xs b ys node once out l r at_end enough =
      let front = Once-front equal less (xs ++ b ∷ []) ys once in
      let apart = Absent-append equal less c.addr (xs ++ b ∷ []) ys out in
      let ne : c.addr ≢ b.addr = last-apart equal less c.addr xs b apart.0 in
      let nodes' = update h.nodes b.addr (some (node_of b (some c.addr))) in
      let nodes = update nodes' c.addr (some (node_of c temp)) in
      let prev : prev_of equal less k h temp h.head ≡ found (some b.addr) =
        prev_of-last equal less k h h.head temp xs b l
          (NotIn-tail_of equal less temp (xs ++ b ∷ []) (
            subst (λ (t : Option ℕ). NotIn equal less t (xs ++ b ∷ []))
              (sym (Seg-first h.nodes temp ys r)) (NotIn-first equal less (xs ++ b ∷ []) ys once)))
          enough in
      let cells : Seg nodes h.head none ((xs ++ b ∷ []) ++ c ∷ ys) =
        Seg-join nodes h.head (some c.addr) none (xs ++ b ∷ []) (c ∷ ys)
          (Seg-update nodes' c.addr _ h.head (some c.addr) (xs ++ b ∷ []) apart.0
            (relink equal less h.nodes h.head temp (some c.addr) xs b front l))
          (
            refl,
            (
              temp,
              rw (==_self c.addr) refl,
              Seg-update nodes' c.addr _ temp none ys apart.1 (
                  Seg-update h.nodes b.addr _ temp none ys (Absent-last equal less xs b ys once) r),
            ),
          ) in
      rw
        (
          prev,
          last-node equal less h.nodes h.head temp xs b l,
          ==_of_ne b.addr c.addr (λ e. ne (sym e)),
          node,
        )
        (Holds-if ((xs ++ b ∷ []) ++ c ∷ ys) (same h.end (some b.addr)) _ _
          (λ last. record {
            heap = record h { nodes = nodes; end = some c.addr };
            returns = refl;
            cells = cells;
            end =
                last_addr-behind equal less h.end xs b c ys (Absent-last equal less xs b ys once)
                  at_end last;
          })
          (λ not_last. record {
            heap = record h { nodes = nodes };
            returns = refl;
            cells = cells;
            end =
                last_addr-before equal less h.end xs b c ys (Absent-last equal less xs b ys once)
                  at_end not_last;
          }))

  pub snoc :
      (z : Cell M) (zs : List (Cell M))
      → (xs : List (Cell M)) × ((b : Cell M) × (z ∷ zs ≡ xs ++ b ∷ []) × (length xs ≡ length zs))
  snoc z [] = ([], (z, refl, refl))
  snoc z (y ∷ ys) =
      let (xs, (b, e, n)) = snoc y ys in
      (z ∷ xs, (b, ap (λ (cs : List (Cell M)). z ∷ cs) e, ap suc n))
