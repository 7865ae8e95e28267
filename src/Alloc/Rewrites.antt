-- ===== src/Alloc/Rewrites.antt =====
-- Total correctness of a command over the hole table, and what one does to the list at a pointer.
use tcp_and_parallel.Prelude.{ℕ, ◌+◌, ◌≤◌, ◌<◌, ◌≡◌, refl, ◌∙◌, false, [], ◌∷◌, arith}
use tcp_and_parallel.Alloc.Table.{
  Ptr, Table, Run, ok, fault, panic, out_of_fuel, Cmd, and_then, is_at,
}
use tcp_and_parallel.Alloc.Cells.{Cell, Cells, times, Once}
use tcp_and_parallel.Alloc.Chain.{Chain}

-- The command returns: no NULL is followed, it does not panic, and the fuel suffices.
abbrev pub Returns : {A : Type 0} → (A → Table → Type 0) → Run A → Type 0
Returns P (ok a s) = P a s
Returns P _ = ⊥

pub Returns-bind :
    {A B : Type 0} (P : A → Table → Type 0) (Q : B → Table → Type 0) (r : Run A) (k : A → Cmd B)
    → Returns P r
    → ((a : A) (s : Table) → P a s → Returns Q (k a s))
    → Returns Q (and_then r k)
Returns-bind P Q (ok a s) k h next = next a s h
Returns-bind P Q fault k h next = h
Returns-bind P Q panic k h next = h
Returns-bind P Q out_of_fuel k h next = h

pub Returns-mono :
    {A : Type 0} (P Q : A → Table → Type 0) (r : Run A)
    → Returns P r
    → ((a : A) (s : Table) → P a s → Q a s)
    → Returns Q r
Returns-mono P Q (ok a s) h weaken = weaken a s h
Returns-mono P Q fault h weaken = h
Returns-mono P Q panic h weaken = h
Returns-mono P Q out_of_fuel h weaken = h

abbrev pub tail : Cells → Cells
tail [] = []
tail (c ∷ cs) = cs

-- The list `xs` at `p` and the list of free slots share no slot, and `hole_head` points at no
-- slot of either, but for the first of `xs`.
pub record Owns (s : Table) (p : Ptr) (xs fs : Cells) : Type 0 where
  pub chain : Chain s.hole p xs
  pub free : Chain s.hole s.free_slots fs
  pub distinct : (a : ℕ) → times a xs + times a fs ≤ 1
  pub inner : (a : ℕ) → 0 < times a (tail xs) + times a fs → is_at s.hole_head a ≡ false

-- From `s` to `t` the list `xs` at `p` becomes `ys`. A slot moves between the list and the free
-- list at most, and every other slot keeps its content.
pub record Rewrites (s t : Table) (p : Ptr) (xs fs ys : Cells) : Type 0 where
  pub freed : Cells
  pub chain : Chain t.hole p ys
  pub free : Chain t.hole t.free_slots freed
  pub once : (a : ℕ) → times a ys + times a freed ≡ times a xs + times a fs
  pub same : (a : ℕ) → times a xs + times a fs ≡ 0 → t.hole a ≡ s.hole a
  pub head : t.hole_head ≡ s.hole_head

pub Owns-tail :
    (s : Table) (p : Ptr) (c : Cell) (xs fs : Cells)
    → Owns s p (c ∷ xs) fs
    → Owns s (s.hole c.slot).h_next xs fs
Owns-tail s p c [] fs o = record {
  chain = o.chain.3;
  free = o.free;
  distinct = λ a. ground (arith, o.distinct a);
  inner = λ a k. o.inner a (ground arith);
}
Owns-tail s p c (d ∷ xs) fs o = record {
  chain = o.chain.3;
  free = o.free;
  distinct = λ a. ground (arith, o.distinct a);
  inner = λ a k. o.inner a (ground arith);
}

-- What a command does to the list behind a cell, it does to the list with the cell.
pub Rewrites-behind :
    (s t : Table) (p : Ptr) (c : Cell) (xs fs ys : Cells)
    → Chain s.hole p (c ∷ xs)
    → ((a : ℕ) → times a (c ∷ xs) + times a fs ≤ 1)
    → Rewrites s t (s.hole c.slot).h_next xs fs ys
    → Rewrites s t p (c ∷ xs) fs (c ∷ ys)
Rewrites-behind s t p c xs fs ys chain distinct r =
    let kept : t.hole c.slot ≡ s.hole c.slot = r.same c.slot (ground (arith, distinct c.slot)) in
    record {
      freed = r.freed;
      chain =
          (chain.0, ground (arith, kept, chain.1), ground (arith, kept, chain.2), rw kept r.chain);
      free = r.free;
      once = λ a. omega (arith, r.once a);
      same = λ a k. r.same a (ground arith);
      head = r.head;
    }

pub Rewrites-cons :
    (s t : Table) (p : Ptr) (c : Cell) (xs fs ys : Cells)
    → Owns s p (c ∷ xs) fs
    → Rewrites s t (s.hole c.slot).h_next xs fs ys
    → Rewrites s t p (c ∷ xs) fs (c ∷ ys)
Rewrites-cons s t p c xs fs ys o r = Rewrites-behind s t p c xs fs ys o.chain o.distinct r

-- A command that starts in `u` is seen from `s`, which has the same slots in another order.
pub Rewrites-from :
    (s u t : Table) (p : Ptr) (xs fs us gs ys : Cells)
    → ((a : ℕ) → times a us + times a gs ≡ times a xs + times a fs)
    → ((a : ℕ) → times a xs + times a fs ≡ 0 → u.hole a ≡ s.hole a)
    → u.hole_head ≡ s.hole_head
    → Rewrites u t p us gs ys
    → Rewrites s t p xs fs ys
Rewrites-from s u t p xs fs us gs ys count same head r = record {
  freed = r.freed;
  chain = r.chain;
  free = r.free;
  once = λ a. r.once a ∙ count a;
  same = λ a k. r.same a (count a ∙ k) ∙ same a k;
  head = r.head ∙ head;
}

pub Rewrites-Owns :
    (s t : Table) (p : Ptr) (c : Cell) (xs fs : Cells) (d : Cell) (ys : Cells)
    → Owns s p (c ∷ xs) fs
    → d.slot ≡ c.slot
    → (r : Rewrites s t p (c ∷ xs) fs (d ∷ ys)) → Owns t p (d ∷ ys) r.freed
Rewrites-Owns s t p c xs fs d ys o e r = record {
  chain = r.chain;
  free = r.free;
  distinct = λ a. ground (arith, o.distinct a, r.once a);
  inner = λ a k. rw r.head (o.inner a (ground (arith, o.distinct a, o.distinct c.slot, r.once a)));
}

pub Rewrites-refl : (s : Table) (p : Ptr) (xs fs : Cells) → Owns s p xs fs → Rewrites s s p xs fs xs
Rewrites-refl s p xs fs o = record {
  freed = fs;
  chain = o.chain;
  free = o.free;
  once = λ a. refl;
  same = λ a k. refl;
  head = refl;
}

pub Rewrites-trans :
    (s t u : Table) (p : Ptr) (xs fs ys zs : Cells)
    → (r : Rewrites s t p xs fs ys) → Rewrites t u p ys r.freed zs
    → Rewrites s u p xs fs zs
Rewrites-trans s t u p xs fs ys zs r q = record {
  freed = q.freed;
  chain = q.chain;
  free = q.free;
  once = λ a. omega (arith, r.once a, q.once a);
  same = λ a k. q.same a (omega (arith, r.once a)) ∙ r.same a k;
  head = q.head ∙ r.head;
}

-- The whole table: the holes `cs` and the free slots `fs`.
pub record IsTable (nr : ℕ) (s : Table) (cs fs : Cells) : Type 0 where
  pub holes : Chain s.hole s.hole_head cs
  pub free : Chain s.hole s.free_slots fs
  pub once : Once nr cs fs

pub IsTable-Owns :
    (nr : ℕ) (s : Table) (cs fs : Cells) → IsTable nr s cs fs → Owns s s.hole_head cs fs
IsTable-Owns nr s [] fs i = record {
  chain = i.holes;
  free = i.free;
  distinct = λ a. ground (arith, i.once a);
  inner = λ a k. ground (arith, i.holes);
}
IsTable-Owns nr s (c ∷ cs) fs i = record {
  chain = i.holes;
  free = i.free;
  distinct = λ a. ground (arith, i.once a);
  inner = λ a k. ground (arith, i.holes, i.once a);
}

pub Rewrites-IsTable :
    (nr : ℕ) (s t : Table) (cs fs ys : Cells)
    → IsTable nr s cs fs
    → (r : Rewrites s t s.hole_head cs fs ys) → IsTable nr t ys r.freed
Rewrites-IsTable nr s t cs fs ys i r = record {
  holes = rw r.head r.chain;
  free = r.free;
  once = λ a. r.once a ∙ i.once a;
}
