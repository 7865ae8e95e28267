-- ===== src/Alloc/Unlinked.antt =====
-- minix/alloc.c: what `del_slot` leaves behind when the slot after `c` goes to the free list.
use tcp_and_parallel.Prelude.{ℕ, ◌≡◌, ◌≢◌, ap, ◌∙◌, some, ◌∷◌, arith}
use tcp_and_parallel.Alloc.Table.{Ptr, Hole, Table}
use tcp_and_parallel.Alloc.Cells.{Cell, Cells}
use tcp_and_parallel.Alloc.Chain.{Chain-frame}
use tcp_and_parallel.Alloc.Rewrites.{Owns, Rewrites}

module _ (s : Table) (p : Ptr) (c d : Cell) (ds fs : Cells) (o : Owns s p (c ∷ d ∷ ds) fs)
    (n : ℕ) where
  -- What a state must show of the two slots; `n` is the new length of the first.
  pub record Unlinked (t : Table) : Type 0 where
    pub next : (t.hole c.slot).h_next ≡ (s.hole d.slot).h_next
    pub base : (t.hole c.slot).h_base ≡ (s.hole c.slot).h_base
    pub len : (t.hole c.slot).h_len ≡ n
    pub freed : t.hole d.slot ≡ record { h_next = s.free_slots; h_base = 0; h_len = 0 }
    pub same : (a : ℕ) → a ≢ c.slot → a ≢ d.slot → t.hole a ≡ s.hole a
    pub head : t.hole_head ≡ s.hole_head
    pub slots : t.free_slots ≡ some d.slot

  pub Unlinked-Rewrites :
      (t : Table) → Unlinked t → Rewrites s t p (c ∷ d ∷ ds) fs (record c { len = n } ∷ ds)
  Unlinked-Rewrites t j = record {
    freed = record { slot = d.slot; base = 0; len = 0 } ∷ fs;
    chain = (
      o.chain.0,
      j.base ∙ o.chain.1,
      j.len,
      rw j.next (
          Chain-frame s.hole t.hole (s.hole d.slot).h_next ds
            (λ a k. j.same a (ground (arith, o.distinct a)) (ground (arith, o.distinct a)))
            o.chain.3.3),
    );
    free = (
      j.slots,
      ap Hole.h_base j.freed,
      ap Hole.h_len j.freed,
      rw j.freed (
          Chain-frame s.hole t.hole s.free_slots fs
            (λ a k. j.same a (ground (arith, o.distinct a)) (ground (arith, o.distinct a))) o.free),
    );
    once = λ a. ground arith;
    same = λ a k. j.same a (ground arith) (ground arith);
    head = j.head;
  }
