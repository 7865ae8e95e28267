-- ===== src/LinkedList/DeleteList.antt =====
-- pthreads/linkedlist.c: `deletelist` against the sequence of cells.
use tcp_and_parallel.Prelude.{
  ℕ, zero, suc, ◌≡◌, ◌≢◌, refl, sym, ap, subst, ◌∙◌, Bool, true, false, Option, none, some, List,
  [], ◌∷◌, ◌++◌, update, arith, length, ◌<◌, ◌≤◌, ◌+◌, ==_self, ==_of_ne,
}
use tcp_and_parallel.LinkedList.{
  Heap, Node, Run, ok, same, found, prev_of, free, free_loop, delete_from, deletelist,
}
use tcp_and_parallel.LinkedList.Cells.{
  Cell, last_addr, last_addr-append, Seg, Absent, Once, Seg-split, Seg-update,
}
use tcp_and_parallel.LinkedList.Search.{NotIn, same_self, same_of_ne, prev_of-last}
use tcp_and_parallel.LinkedList.Insert.{NotIn-first, NotIn-tail_of, Absent-append}
use tcp_and_parallel.LinkedList.Between.{snoc}

module _ {M : Type 0} (equal less : M → M → Bool) where
  abbrev pub AllFreed : (ℕ → Option (Node M)) → List (Cell M) → Type 0
  AllFreed nodes [] = Unit
  AllFreed nodes (c ∷ cs) = (nodes c.addr ≡ none) × AllFreed nodes cs

  -- `r` is the heap `h` without these cells.
  record Frees (cs : List (Cell M)) (h : Heap M) (r : Run M) : Type 0 where
    heap : Heap M
    returns : r ≡ ok heap
    freed : AllFreed heap.nodes cs
    others : (a : ℕ) → Absent a cs → heap.nodes a ≡ h.nodes a
    head : heap.head ≡ h.head
    end : heap.end ≡ h.end

  free_loop-Frees :
      (k : ℕ) (p : Option ℕ) (cs : List (Cell M)) (h : Heap M)
      → Seg h.nodes p none cs
      → Once cs
      → length cs < k
      → Frees cs h (free_loop equal less k p h)
  unfolding free_loop free
  free_loop-Frees zero p cs h seg once enough = absurd (omega arith)
  free_loop-Frees (suc k) p [] h seg once enough = rw seg (record {
    heap = h;
    returns = refl;
    freed = tt;
    others = λ a out. refl;
    head = refl;
    end = refl;
  })
  free_loop-Frees (suc k) p (c ∷ cs) h (at, (next, node, rest)) once enough =
      let h' = record h { nodes = update h.nodes c.addr none } in
      let r =
        free_loop-Frees k next cs h' (Seg-update h.nodes c.addr none next none cs once.0 rest)
          once.1 (omega arith) in
      subst (λ (p : Option ℕ). Frees (c ∷ cs) h (free_loop equal less (suc k) p h)) (sym at)
        (rw (free_loop, node)
          (record {
            heap = r.heap;
            returns = r.returns;
            freed = (r.others c.addr once.0 ∙ rw (==_self c.addr), r.freed);
            others = λ a out. r.others a out.1 ∙ rw (==_of_ne c.addr a (λ e. out.0 (sym e)));
            head = r.head;
            end = r.end;
          }))

  -- Cells that are apart from those freed.
  Seg-apart :
      (f g : ℕ → Option (Node M)) (p q : Option ℕ) (zs cs : List (Cell M))
      → Once (zs ++ cs)
      → ((a : ℕ) → Absent a cs → g a ≡ f a)
      → Seg f p q zs
      → Seg g p q zs
  Seg-apart f g p q [] cs once same_at h = h
  Seg-apart f g p q (z ∷ zs) cs once same_at (at, (next, node, rest)) = (
    at,
    (
      next,
      (same_at z.addr (Absent-append equal less z.addr zs cs once.0).1 ∙ node),
      Seg-apart f g next q zs cs once.1 same_at rest,
    ),
  )

  Once-back : (xs ys : List (Cell M)) → Once (xs ++ ys) → Once ys
  Once-back [] ys h = h
  Once-back (x ∷ xs) ys h = Once-back xs ys h.1

  -- Where the list goes on after the cells that stay, and its last node.
  abbrev left_at : List (Cell M) → ℕ → Option ℕ
  left_at [] a = none
  left_at (z ∷ zs) a = some a

  -- The cells `zs` are left, and `cs` freed. The list does not end after `zs`: it leads to `q`.
  pub record Cut (zs cs : List (Cell M)) (q : Option ℕ) (r : Run M) : Type 0 where
    pub heap : Heap M
    pub returns : r ≡ ok heap
    pub cells : Seg heap.nodes heap.head q zs
    pub freed : AllFreed heap.nodes cs
    pub end : heap.end ≡ last_addr zs

  all-Cut :
      (k : ℕ) (h : Heap M) (b : Cell M) (ys : List (Cell M))
      → Once (b ∷ ys)
      → Seg h.nodes h.head none (b ∷ ys)
      → length (b ∷ ys) < k
      → Cut [] (b ∷ ys) none (deletelist equal less k (some b.addr) h)
  unfolding deletelist
  all-Cut k h b ys once seg enough =
      let here : same (some b.addr) h.head ≡ true =
        ap (same (some b.addr)) seg.0 ∙ same_self equal less (some b.addr) in
      let not_empty : same h.head none ≡ false = ap (λ (p : Option ℕ). same p none) seg.0 in
      let r =
        free_loop-Frees k (some b.addr) (b ∷ ys) (record h { head = none; end = none })
          (refl, seg.1) once enough in
      rw (not_empty, here)
        (record {
          heap = r.heap;
          returns = r.returns;
          cells = r.head;
          freed = r.freed;
          end = r.end;
        })

  part-Cut :
      (k : ℕ) (h : Heap M) (xs : List (Cell M)) (p b : Cell M) (ys : List (Cell M))
      → Once ((xs ++ p ∷ []) ++ b ∷ ys)
      → Seg h.nodes h.head none ((xs ++ p ∷ []) ++ b ∷ ys)
      → length xs + length (b ∷ ys) < k
      → Cut (xs ++ p ∷ []) (b ∷ ys) (some b.addr) (deletelist equal less k (some b.addr) h)
  unfolding deletelist delete_from
  part-Cut k h xs p b ys once seg enough =
      let (mid, l, r) = Seg-split h.nodes h.head none (xs ++ p ∷ []) (b ∷ ys) seg in
      let l' : Seg h.nodes h.head (some b.addr) (xs ++ p ∷ []) =
        subst (λ (m : Option ℕ). Seg h.nodes h.head m (xs ++ p ∷ [])) r.0 l in
      let out = NotIn-first equal less (xs ++ p ∷ []) (b ∷ ys) once in
      let away : same (some b.addr) h.head ≡ false =
        same_of_ne equal less (some b.addr) h.head (apart xs l' out) in
      let prev : prev_of equal less k h (some b.addr) h.head ≡ found (some p.addr) =
        prev_of-last equal less k h h.head (some b.addr) xs p l'
          (NotIn-tail_of equal less (some b.addr) (xs ++ p ∷ []) out) (omega arith) in
      let f =
        free_loop-Frees k (some b.addr) (b ∷ ys) (record h { end = some p.addr }) (refl, r.1)
          (Once-back (xs ++ p ∷ []) (b ∷ ys) once) (omega arith) in
      rw (not_empty xs l', away, prev)
        (record {
          heap = f.heap;
          returns = f.returns;
          cells =
              subst (λ (q : Option ℕ). Seg f.heap.nodes q (some b.addr) (xs ++ p ∷ [])) (sym f.head)
                (Seg-apart h.nodes f.heap.nodes h.head (some b.addr) (xs ++ p ∷ []) (b ∷ ys) once
                  f.others l');
          freed = f.freed;
          end = f.end ∙ sym (last_addr-append xs p []);
        })
    where
      apart :
          (xs : List (Cell M))
          → Seg h.nodes h.head (some b.addr) (xs ++ p ∷ [])
          → NotIn equal less (some b.addr) (xs ++ p ∷ [])
          → some b.addr ≢ h.head
      apart [] l n = λ e. n.0 (e ∙ l.0)
      apart (x ∷ xs) l n = λ e. n.0 (e ∙ l.0)

      not_empty :
          (xs : List (Cell M))
          → Seg h.nodes h.head (some b.addr) (xs ++ p ∷ [])
          → same h.head none ≡ false
      not_empty [] l = ap (λ (p : Option ℕ). same p none) l.0
      not_empty (x ∷ xs) l = ap (λ (p : Option ℕ). same p none) l.0

  -- On a list whose nodes are at different addresses, and with fuel for every node and one more,
  -- deletelist of one of them follows no NULL pointer and no freed node, and ends. That node and
  -- all behind it are freed; the nodes before it are as they were, so that the last of them still
  -- leads to the freed one, and it is at end. Where there are none before, head and end are NULL.
  pub deletelist-Cut :
      (k : ℕ) (h : Heap M) (zs : List (Cell M)) (b : Cell M) (ys : List (Cell M))
      → Once (zs ++ b ∷ ys)
      → Seg h.nodes h.head none (zs ++ b ∷ ys)
      → length zs + length (b ∷ ys) ≤ k
      → Cut zs (b ∷ ys) (left_at zs b.addr) (deletelist equal less (suc k) (some b.addr) h)
  deletelist-Cut k h [] b ys once seg enough = all-Cut (suc k) h b ys once seg (omega arith)
  deletelist-Cut k h (z ∷ zs) b ys once seg enough =
      let (xs, (p, e, n)) = snoc equal less z zs in
      subst
        (λ (ws : List (Cell M)).
          Cut ws (b ∷ ys) (some b.addr) (deletelist equal less (suc k) (some b.addr) h))
        (sym e)
        (part-Cut (suc k) h xs p b ys (subst (λ (ws : List (Cell M)). Once (ws ++ b ∷ ys)) e once)
          (subst (λ (ws : List (Cell M)). Seg h.nodes h.head none (ws ++ b ∷ ys)) e seg)
          (omega (arith, n)))
