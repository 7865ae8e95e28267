-- ===== src/LinkedList/Ends.antt =====
-- pthreads/linkedlist.c: where `end` points when a node comes or goes.
use tcp_and_parallel.Prelude.{
  ℕ, ◌≡◌, refl, sym, ap, ◌∙◌, Bool, true, false, Option, some, List, [], ◌∷◌, ◌++◌, if◌then◌else◌,
}
use tcp_and_parallel.LinkedList.{same}
use tcp_and_parallel.LinkedList.Cells.{Cell, Absent, last_addr, last_addr-append, Absent-last_addr}
use tcp_and_parallel.LinkedList.Search.{same_self, same_of_ne}

module _ {M : Type 0} (equal less : M → M → Bool) where
  -- The last of the cells is not `b`.
  later :
      (e : Option ℕ) (zs : List (Cell M)) (b y : Cell M) (ys : List (Cell M))
      → Absent b.addr (y ∷ ys)
      → e ≡ last_addr (zs ++ y ∷ ys)
      → same e (some b.addr) ≡ false
  later e zs b y ys out at =
      same_of_ne equal less e (some b.addr)
        (λ is. Absent-last_addr b.addr y ys out (sym (at ∙ last_addr-append zs y ys) ∙ is))

  -- The new cell `c` comes behind `b`, which is the last.
  pub last_addr-behind :
      (e : Option ℕ) (xs : List (Cell M)) (b c : Cell M) (ys : List (Cell M))
      → Absent b.addr ys
      → e ≡ last_addr ((xs ++ b ∷ []) ++ ys)
      → same e (some b.addr) ≡ true
      → some c.addr ≡ last_addr ((xs ++ b ∷ []) ++ c ∷ ys)
  last_addr-behind e xs b c [] out at is = sym (last_addr-append (xs ++ b ∷ []) c [])
  last_addr-behind e xs b c (y ∷ ys) out at is =
      let not_last = later e (xs ++ b ∷ []) b y ys out at in absurd (cc)

  pub append_nil : (xs : List (Cell M)) → xs ++ [] ≡ xs
  append_nil [] = refl
  append_nil (x ∷ xs) = ap (λ (ys : List (Cell M)). x ∷ ys) (append_nil xs)

  pub last_addr-before :
      (e : Option ℕ) (xs : List (Cell M)) (b c : Cell M) (ys : List (Cell M))
      → Absent b.addr ys
      → e ≡ last_addr ((xs ++ b ∷ []) ++ ys)
      → same e (some b.addr) ≡ false
      → e ≡ last_addr ((xs ++ b ∷ []) ++ c ∷ ys)
  last_addr-before e xs b c [] out at other =
      let is : e ≡ some b.addr =
        at ∙ ap last_addr (append_nil (xs ++ b ∷ [])) ∙ last_addr-append xs b [] in
      let here : same e (some b.addr) ≡ true =
        ap (λ (e : Option ℕ). same e (some b.addr)) is ∙ same_self equal less (some b.addr) in
      absurd (cc)
  last_addr-before e xs b c (y ∷ ys) out at other =
      at ∙ last_addr-append (xs ++ b ∷ []) y ys ∙ sym (last_addr-append (xs ++ b ∷ []) c (y ∷ ys))

  -- Without `b`, where `p` is what is before it if it is the last.
  pub last_addr-without :
      (e p : Option ℕ) (zs : List (Cell M)) (b : Cell M) (ys : List (Cell M))
      → Absent b.addr ys
      → e ≡ last_addr (zs ++ b ∷ ys)
      → (ys ≡ [] → p ≡ last_addr zs)
      → (if same e (some b.addr) then p else e) ≡ last_addr (zs ++ ys)
  last_addr-without e p zs b [] out at before =
      let here : same e (some b.addr) ≡ true =
        ap (λ (e : Option ℕ). same e (some b.addr)) (at ∙ last_addr-append zs b [])
        ∙ same_self equal less (some b.addr) in
      rw here (before refl ∙ sym (ap last_addr (append_nil zs)))
  last_addr-without e p zs b (y ∷ ys) out at before =
      let at' : e ≡ last_addr (zs ++ y ∷ ys) =
        at ∙ last_addr-append zs b (y ∷ ys) ∙ sym (last_addr-append zs y ys) in
      rw (later e zs b y ys out at') at'
