-- ===== src/Alloc/Holes/Pending.antt =====
-- minix/alloc.c: the walk of free_mem to the place of a block.

use tcp_and_parallel.Prelude.{
  ℕ, zero, suc, ◌+◌, ◌≤◌, ◌<◌, ◌≡◌, ◌≢◌, refl, ◌∙◌, false, some, inl, inr, [], ◌∷◌, arith, ◌==◌,
  ltb, u32_mod, Bool-cases, length, eq_of_==, update,
}
use tcp_and_parallel.Alloc.Table.{Ptr, Hole, Table, is_at}
use tcp_and_parallel.Alloc.Cells.{Cell, Cells, times}
use tcp_and_parallel.Alloc.Chain.{Chain-frame}
use tcp_and_parallel.Alloc.Rewrites.{
  Returns, Returns-mono, Owns, Owns-tail, Rewrites, Rewrites-behind, Rewrites-from,
}
use tcp_and_parallel.Alloc.Spec.{Fits, join_two, insert_behind}
use tcp_and_parallel.Alloc.Holes.{merge, insert_after, free_loop}
use tcp_and_parallel.Alloc.Holes.Merge.{merge-join}

-- The slot of `new` is filled in and on neither list.
pub record Pending (s : Table) (p : Ptr) (xs fs : Cells) (new : Cell) : Type 0 where
  pub owns : Owns s p xs fs
  pub base : (s.hole new.slot).h_base ≡ new.base
  pub len : (s.hole new.slot).h_len ≡ new.len
  pub distinct : (a : ℕ) → times a xs + times a (new ∷ fs) ≤ 1
  pub off : is_at s.hole_head new.slot ≡ false

pub Pending-tail :
    (s : Table) (p : Ptr) (c : Cell) (xs fs : Cells) (new : Cell)
    → Pending s p (c ∷ xs) fs new
    → Pending s (s.hole c.slot).h_next xs fs new
Pending-tail s p c xs fs new w = record {
  owns = Owns-tail s p c xs fs w.owns;
  base = w.base;
  len = w.len;
  distinct = λ a. ground (arith, w.distinct a);
  off = w.off;
}

module _ (new : Cell) (fs : Cells) where
  module _ (s : Table) (p : Ptr) (c : Cell) (cs : Cells) (w : Pending s p (c ∷ cs) fs new) where
    -- What a state must show of the two slots to have `new` behind `c`.
    record Inserted (u : Table) : Type 0 where
      next : (u.hole c.slot).h_next ≡ some new.slot
      base : (u.hole c.slot).h_base ≡ (s.hole c.slot).h_base
      len : (u.hole c.slot).h_len ≡ (s.hole c.slot).h_len
      new_next : (u.hole new.slot).h_next ≡ (s.hole c.slot).h_next
      new_base : (u.hole new.slot).h_base ≡ (s.hole new.slot).h_base
      new_len : (u.hole new.slot).h_len ≡ (s.hole new.slot).h_len
      same : (a : ℕ) → a ≢ c.slot → a ≢ new.slot → u.hole a ≡ s.hole a
      head : u.hole_head ≡ s.hole_head
      slots : u.free_slots ≡ s.free_slots

    Inserted-Owns : (u : Table) → Inserted u → Owns u p (c ∷ new ∷ cs) fs
    Inserted-Owns u j = record {
      chain = (
        w.owns.chain.0,
        j.base ∙ w.owns.chain.1,
        j.len ∙ w.owns.chain.2,
        (
          j.next,
          j.new_base ∙ w.base,
          j.new_len ∙ w.len,
          rw j.new_next (
              Chain-frame s.hole u.hole (s.hole c.slot).h_next cs
                (λ a k. j.same a (ground (arith, w.distinct a)) (ground (arith, w.distinct a)))
                w.owns.chain.3),
        ),
      );
      free = rw j.slots (
          Chain-frame s.hole u.hole s.free_slots fs
            (λ a k. j.same a (ground (arith, w.distinct a)) (ground (arith, w.distinct a)))
            w.owns.free);
      distinct = λ a. omega (arith, w.distinct a);
      inner = λ a k. rw j.head (elim (Bool-cases (new.slot == a)) [
        | inl e ↦ rw (← eq_of_== new.slot a e) w.off
        | inr e ↦ w.owns.inner a (ground arith)
      ]);
    }

    Inserted-merge :
        (u : Table)
        → Fits (c ∷ new ∷ cs)
        → Inserted u
        → Returns
            (λ _ t. Rewrites s t p (c ∷ cs) (new ∷ fs) (join_two c (new ∷ cs)))
            (merge c.slot u)
    Inserted-merge u fit j =
        Returns-mono _ _ (merge c.slot u) (merge-join u p c (new ∷ cs) fs (Inserted-Owns u j) fit)
          (λ _ t.
            Rewrites-from s u t p (c ∷ cs) (new ∷ fs) (c ∷ new ∷ cs) fs (join_two c (new ∷ cs))
              (λ a. omega arith) (λ a k. j.same a (ground arith) (ground arith)) j.head)

    insert_after-join :
        Fits (c ∷ new ∷ cs)
        → Returns
            (λ _ t. Rewrites s t p (c ∷ cs) (new ∷ fs) (join_two c (new ∷ cs)))
            (insert_after new.slot (some c.slot) s)
    unfolding insert_after
    insert_after-join fit =
        let ne : c.slot ≢ new.slot = ground (arith, w.distinct c.slot) in
        let f : ℕ → Hole =
          update s.hole new.slot (record (s.hole new.slot) { h_next = (s.hole c.slot).h_next }) in
        Inserted-merge
          (record s { hole = update f c.slot (record (f c.slot) { h_next = some new.slot }) }) fit
          (record {
            next = ground arith;
            base = ground arith;
            len = ground arith;
            new_next = ground arith;
            new_base = ground arith;
            new_len = ground arith;
            same = λ a h k. ground arith;
            head = refl;
            slots = refl;
          })

  -- The walk from behind the hole `c`, which starts below the block.
  pub free_loop-insert :
      (k : ℕ) (s : Table) (p : Ptr) (c : Cell) (cs : Cells)
      → Pending s p (c ∷ cs) fs new
      → Fits (c ∷ cs)
      → new.base + new.len < u32_mod
      → length cs < k
      → Returns
          (λ _ t. Rewrites s t p (c ∷ cs) (new ∷ fs) (insert_behind new c cs))
          (free_loop k new.base new.slot (some c.slot) (s.hole c.slot).h_next s)
  unfolding free_loop
  free_loop-insert zero s p c cs w fit end fuel = absurd (omega arith)
  free_loop-insert (suc k) s p c [] w fit end fuel =
      rw w.owns.chain.3 (insert_after-join s p c [] w (fit.0, (end, tt)))
  free_loop-insert (suc k) s p c (d ∷ ds) w fit end fuel = elim (Bool-cases (ltb d.base new.base)) [
    | inl e ↦
        rw (w.owns.chain.3.0, w.owns.chain.3.1, e)
          (Returns-mono _ _ (free_loop k new.base new.slot (some d.slot) (s.hole d.slot).h_next s)
            (free_loop-insert k s (s.hole c.slot).h_next d ds (Pending-tail s p c (d ∷ ds) fs new w)
              fit.1 end (omega arith))
            (λ _ t.
              Rewrites-behind s t p c (d ∷ ds) (new ∷ fs) (insert_behind new d ds) w.owns.chain
                w.distinct))
    | inr e ↦
        rw (w.owns.chain.3.0, w.owns.chain.3.1, e)
          (insert_after-join s p c (d ∷ ds) w (fit.0, (end, fit.1)))
  ]
