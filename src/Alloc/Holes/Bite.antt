-- ===== src/Alloc/Holes/Bite.antt =====
-- minix/alloc.c: `alloc_mem` bites the block off a hole.
use tcp_and_parallel.Prelude.{
  ℕ, zero, suc, ◌+◌, ◌-◌, ◌*◌, ◌%◌, ◌≤◌, ◌<◌, ◌≡◌, ◌≢◌, refl, ◌∙◌, Bool, true, false, not, ◌&&◌,
  some, none, inl, inr, [], ◌∷◌, arith, ◌==◌, leb, u32_mod, add32, add32_of_lt, sub32, sub32_of_le,
  Bool-cases, le_of_leb, length, ==_self,
}
use tcp_and_parallel.Alloc.Table.{Ptr, Table, Config, is_at}
use tcp_and_parallel.Alloc.Cells.{Cell, Cells}
use tcp_and_parallel.Alloc.Chain.{Chain-frame, Chain-update}
use tcp_and_parallel.Alloc.Unlinked.{Unlinked-Rewrites}
use tcp_and_parallel.Alloc.Rewrites.{
  Returns, Returns-mono, Owns, Owns-tail, Rewrites, Rewrites-refl, Rewrites-cons, IsTable,
  IsTable-Owns, Rewrites-IsTable,
}
use tcp_and_parallel.Alloc.Spec.{Fits, shrink, alloc_cells, alloc_base}
use tcp_and_parallel.Alloc.Holes.{del_slot, bite, alloc_loop}

abbrev pub AlwaysOk : Config → Type 0
AlwaysOk c = (a n : ℕ) → c.memset_ok a n ≡ true

quiet : (b d : Bool) → d ≡ true → (b && not d) ≡ false
quiet b d h = ground arith

module _ (g : Config) (good : AlwaysOk g) (clicks : ℕ) (clear : Bool) (s : Table) (c : Cell)
    (cs fs : Cells) (fits : c.base + c.len < u32_mod) (enough : clicks ≤ c.len) where
  module _ (base : (s.hole c.slot).h_base ≡ c.base) (len : (s.hole c.slot).h_len ≡ c.len) where
    base_lem : add32 (s.hole c.slot).h_base clicks ≡ c.base + clicks
    base_lem = rw base (add32_of_lt c.base clicks (omega arith))

    len_lem : sub32 (s.hole c.slot).h_len clicks ≡ c.len - clicks
    len_lem = rw len (sub32_of_le c.len clicks enough (omega arith))

  quiet_lem :
      (clear
        && not (
            g.memset_ok
              (g.click_size * (s.hole c.slot).h_base % u32_mod)
              (g.click_size * clicks % u32_mod)))
      ≡ false
  quiet_lem = quiet clear _ (good _ _)

  bite-shrink :
      (p : Ptr) (o : Owns s p (c ∷ cs) fs) (prev : Ptr)
      → (c.len == clicks) ≡ false
      → Returns
          (λ v t. (v ≡ c.base) × Rewrites s t p (c ∷ cs) fs (shrink clicks c ∷ cs))
          (bite g clicks clear prev c.slot s)
  unfolding bite
  bite-shrink p o prev e =
      let some_left : (c.len - clicks == 0) ≡ false = ground arith in
      rw (base_lem o.chain.1 o.chain.2, len_lem o.chain.1 o.chain.2, some_left, quiet_lem)
        (
          o.chain.1,
          record {
            freed = fs;
            chain = (
              o.chain.0,
              ground arith,
              ground arith,
              rw (==_self c.slot) (
                  Chain-update s.hole (s.hole c.slot).h_next cs c.slot _
                    (ground (arith, o.distinct c.slot)) o.chain.3),
            );
            free =
                Chain-update s.hole s.free_slots fs c.slot _ (ground (arith, o.distinct c.slot))
                  o.free;
            once = λ a. refl;
            same = λ a k. ground arith;
            head = refl;
          },
        )

  -- A hole that is used up, behind another.
  bite-unlink :
      (p : Ptr) (q : Cell) (o : Owns s p (q ∷ c ∷ cs) fs)
      → (c.len == clicks) ≡ true
      → Returns
          (λ v t. (v ≡ c.base) × Rewrites s t p (q ∷ c ∷ cs) fs (q ∷ cs))
          (bite g clicks clear (some q.slot) c.slot s)
  unfolding bite del_slot
  bite-unlink p q o e =
      let none_left : (c.len - clicks == 0) ≡ true = ground arith in
      let ne : q.slot ≢ c.slot = ground (arith, o.distinct c.slot) in
      rw
        (
          base_lem o.chain.3.1 o.chain.3.2,
          len_lem o.chain.3.1 o.chain.3.2,
          none_left,
          o.inner c.slot (ground arith),
          quiet_lem,
        )
        (
          o.chain.3.1,
          Unlinked-Rewrites s p q c cs fs o q.len _ (record {
            next = ground arith;
            base = ground arith;
            len = ground (arith, o.chain.2);
            freed = ground arith;
            same = λ a h k. ground arith;
            head = refl;
            slots = refl;
          }),
        )

  bite-first :
      (nr : ℕ) (i : IsTable nr s (c ∷ cs) fs)
      → (c.len == clicks) ≡ true
      → Returns
          (λ v t. (v ≡ c.base) × (ys : Cells) × IsTable nr t cs ys)
          (bite g clicks clear none c.slot s)
  unfolding bite del_slot
  bite-first nr i e =
      let none_left : (c.len - clicks == 0) ≡ true = ground arith in
      let at : is_at s.hole_head c.slot ≡ true = rw i.holes.0 (==_self c.slot) in
      let o : Owns s s.hole_head (c ∷ cs) fs = IsTable-Owns nr s (c ∷ cs) fs i in
      rw (base_lem i.holes.1 i.holes.2, len_lem i.holes.1 i.holes.2, none_left, at, quiet_lem)
        (
          i.holes.1,
          record { slot = c.slot; base = 0; len = 0 } ∷ fs,
          record {
            holes = rw (==_self c.slot) (
                Chain-frame s.hole _ (s.hole c.slot).h_next cs (λ a k. ground (arith, o.distinct a))
                  i.holes.3);
            free = (
              refl,
              ground arith,
              ground arith,
              rw (==_self c.slot) (
                  Chain-frame s.hole _ s.free_slots fs (λ a k. ground (arith, o.distinct a))
                    i.free),
            );
            once = λ a. ground (arith, i.once a);
          },
        )

module _ (g : Config) (good : AlwaysOk g) (clicks : ℕ) (clear : Bool) where
  -- The rest of the walk, from behind the hole `q`.
  alloc_loop-behind :
      (k : ℕ) (s : Table) (p : Ptr) (q : Cell) (cs fs : Cells)
      → Owns s p (q ∷ cs) fs
      → Fits cs
      → length cs < k
      → Returns
          (λ v t.
            (v ≡ alloc_base g.no_mem clicks cs)
            × Rewrites s t p (q ∷ cs) fs (q ∷ alloc_cells clicks cs))
          (alloc_loop k g clicks clear (some q.slot) (s.hole q.slot).h_next s)
  unfolding alloc_loop
  alloc_loop-behind zero s p q cs fs o fit fuel = absurd (omega arith)
  alloc_loop-behind (suc k) s p q [] fs o fit fuel =
      rw o.chain.3 (refl, Rewrites-refl s p (q ∷ []) fs o)
  alloc_loop-behind (suc k) s p q (c ∷ cs) fs o fit fuel = elim (Bool-cases (leb clicks c.len)) [
    | inl enough ↦
        rw (o.chain.3.0, o.chain.3.2, enough)
          (elim (Bool-cases (c.len == clicks)) [
            | inl all ↦
                rw all
                  (bite-unlink g good clicks clear s c cs fs fit.0 (le_of_leb _ _ enough) p q o all)
            | inr part ↦ rw part (
                Returns-mono _ _ (bite g clicks clear (some q.slot) c.slot s)
                  (bite-shrink g good clicks clear s c cs fs fit.0 (le_of_leb _ _ enough)
                    (s.hole q.slot).h_next (Owns-tail s p q (c ∷ cs) fs o) (some q.slot) part)
                  (λ v t h. (h.0, Rewrites-cons s t p q (c ∷ cs) fs (shrink clicks c ∷ cs) o h.1)))
          ])
    | inr small ↦
        rw (o.chain.3.0, o.chain.3.2, small)
          (Returns-mono _ _ (alloc_loop k g clicks clear (some c.slot) (s.hole c.slot).h_next s)
            (alloc_loop-behind k s (s.hole q.slot).h_next c cs fs (Owns-tail s p q (c ∷ cs) fs o)
              fit.1 (omega arith))
            (λ v t h. (h.0, Rewrites-cons s t p q (c ∷ cs) fs (c ∷ alloc_cells clicks cs) o h.1)))
  ]

  -- The walk from `hole_head`.
  pub alloc_loop-first_fit :
      (k nr : ℕ) (s : Table) (hp : Ptr) (cs fs : Cells)
      → hp ≡ s.hole_head
      → IsTable nr s cs fs
      → Fits cs
      → length cs < k
      → Returns
          (λ v t.
            (v ≡ alloc_base g.no_mem clicks cs)
            × (ys : Cells) × IsTable nr t (alloc_cells clicks cs) ys)
          (alloc_loop k g clicks clear none hp s)
  unfolding alloc_loop
  alloc_loop-first_fit zero nr s hp cs fs at i fit fuel = absurd (omega arith)
  alloc_loop-first_fit (suc k) nr s hp [] fs at i fit fuel = rw (at ∙ i.holes) (refl, fs, i)
  alloc_loop-first_fit (suc k) nr s hp (c ∷ cs) fs at i fit fuel =
      let o : Owns s s.hole_head (c ∷ cs) fs = IsTable-Owns nr s (c ∷ cs) fs i in
      elim (Bool-cases (leb clicks c.len)) [
        | inl enough ↦
            rw (at ∙ i.holes.0, i.holes.2, enough)
              (elim (Bool-cases (c.len == clicks)) [
                | inl all ↦
                    rw all (
                      bite-first g good clicks clear s c cs fs fit.0 (le_of_leb _ _ enough) nr i
                        all)
                | inr part ↦ rw part (
                    Returns-mono _ _ (bite g clicks clear none c.slot s)
                      (bite-shrink g good clicks clear s c cs fs fit.0 (le_of_leb _ _ enough)
                        s.hole_head o none part)
                      (λ v t h. (
                        h.0,
                        h.1.freed,
                        Rewrites-IsTable nr s t (c ∷ cs) fs (shrink clicks c ∷ cs) i h.1,
                      )))
              ])
        | inr small ↦
            rw (at ∙ i.holes.0, i.holes.2, small)
              (Returns-mono _ _ (alloc_loop k g clicks clear (some c.slot) (s.hole c.slot).h_next s)
                (alloc_loop-behind k s s.hole_head c cs fs o fit.1 (omega arith))
                (λ v t h. (
                  h.0,
                  h.1.freed,
                  Rewrites-IsTable nr s t (c ∷ cs) fs (c ∷ alloc_cells clicks cs) i h.1,
                )))
      ]
