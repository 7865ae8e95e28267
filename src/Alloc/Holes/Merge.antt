-- ===== src/Alloc/Holes/Merge.antt =====
-- minix/alloc.c: `del_slot` and `merge` join a hole with those that it touches.
use tcp_and_parallel.Prelude.{
  ◌+◌, ◌<◌, ◌≡◌, ◌≢◌, refl, true, false, inl, inr, [], ◌∷◌, arith, ◌==◌, u32_mod, add32,
  add32_of_lt, Bool-cases,
}
use tcp_and_parallel.Alloc.Table.{Ptr, Table, ok}
use tcp_and_parallel.Alloc.Cells.{Cell, Cells}
use tcp_and_parallel.Alloc.Rewrites.{
  Returns, Returns-bind, Returns-mono, Owns, Owns-tail, Rewrites, Rewrites-refl, Rewrites-cons,
  Rewrites-Owns, Rewrites-trans,
}
use tcp_and_parallel.Alloc.Unlinked.{Unlinked-Rewrites}
use tcp_and_parallel.Alloc.Spec.{touches, grow, join_one, join_two, Fits, grow-Fits}
use tcp_and_parallel.Alloc.Holes.{del_slot, absorb, merge_last, merge_first, merge}

module _ (s : Table) (p : Ptr) (c d : Cell) (ds fs : Cells) (o : Owns s p (c ∷ d ∷ ds) fs)
    (fits : c.base + c.len < u32_mod) where
  test :
      (add32 (s.hole c.slot).h_base (s.hole c.slot).h_len == (s.hole d.slot).h_base) ≡ touches c d
  test = rw (o.chain.1, o.chain.2, o.chain.3.1, add32_of_lt c.base c.len fits)

  absorb-apart : touches c d ≡ false → absorb c.slot d.slot s ≡ ok false s
  unfolding absorb
  absorb-apart e = rw (test, e)

module _ (s : Table) (p : Ptr) (c d : Cell) (ds fs : Cells) (o : Owns s p (c ∷ d ∷ ds) fs)
    (fits : c.base + c.len < u32_mod) (room : c.len + d.len < u32_mod) where
  apart_slots : c.slot ≢ d.slot
  apart_slots = ground (arith, o.distinct c.slot)

  absorb-join :
      touches c d ≡ true
      → Returns
          (λ b t. (b ≡ true) × Rewrites s t p (c ∷ d ∷ ds) fs (grow c d ∷ ds))
          (absorb c.slot d.slot s)
  unfolding absorb del_slot
  absorb-join e =
      let ne : c.slot ≢ d.slot = apart_slots in
      rw (test s p c d ds fs o fits, e, o.inner d.slot (ground arith))
        (
          refl,
          Unlinked-Rewrites s p c d ds fs o (c.len + d.len) _ (record {
            next = ground arith;
            base = ground arith;
            len = ground (arith, o.chain.2, o.chain.3.2, add32_of_lt c.len d.len room);
            freed = ground arith;
            same = λ a h k. ground arith;
            head = refl;
            slots = refl;
          }),
        )

room_of_touches :
    (c d : Cell) (ds : Cells) → touches c d ≡ true → Fits (c ∷ d ∷ ds) → c.len + d.len < u32_mod
room_of_touches c d ds e fit = ground arith

merge_last-join :
    (s : Table) (p : Ptr) (c : Cell) (cs fs : Cells)
    → Owns s p (c ∷ cs) fs
    → Fits (c ∷ cs)
    → Returns
        (λ _ t. Rewrites s t p (c ∷ cs) fs (join_one c cs))
        (merge_last c.slot (s.hole c.slot).h_next s)
unfolding merge_last
merge_last-join s p c [] fs o fit = rw o.chain.3 (Rewrites-refl s p (c ∷ []) fs o)
merge_last-join s p c (d ∷ ds) fs o fit = elim (Bool-cases (touches c d)) [
  | inl e ↦
      rw (e, o.chain.3.0)
        (Returns-bind _ _ (absorb c.slot d.slot s) _
          (absorb-join s p c d ds fs o fit.0 (room_of_touches c d ds e fit) e) (λ b t h. h.1))
  | inr e ↦
      rw (e, o.chain.3.0, absorb-apart s p c d ds fs o fit.0 e)
        (Rewrites-refl s p (c ∷ d ∷ ds) fs o)
]

merge_first-join :
    (s : Table) (p : Ptr) (c : Cell) (cs fs : Cells)
    → Owns s p (c ∷ cs) fs
    → Fits (c ∷ cs)
    → Returns
        (λ _ t. Rewrites s t p (c ∷ cs) fs (join_two c cs))
        (merge_first c.slot (s.hole c.slot).h_next s)
unfolding merge_first
merge_first-join s p c [] fs o fit = rw o.chain.3 (Rewrites-refl s p (c ∷ []) fs o)
merge_first-join s p c (d ∷ ds) fs o fit = elim (Bool-cases (touches c d)) [
  | inl e ↦
      rw (e, o.chain.3.0)
        (Returns-bind _ _ (absorb c.slot d.slot s) _
          (absorb-join s p c d ds fs o fit.0 (room_of_touches c d ds e fit) e)
          (λ b t h. rw h.0 (
            Returns-mono _ _ (merge_last c.slot (t.hole c.slot).h_next t)
              (merge_last-join t p (grow c d) ds h.1.freed
                (Rewrites-Owns s t p c (d ∷ ds) fs (grow c d) ds o refl h.1)
                (grow-Fits c d ds e fit))
              (λ _ u.
                Rewrites-trans s t u p (c ∷ d ∷ ds) fs (grow c d ∷ ds) (join_one (grow c d) ds)
                  h.1))))
  | inr e ↦
      rw (e, o.chain.3.0, absorb-apart s p c d ds fs o fit.0 e)
        (Returns-mono _ _ (merge_last d.slot (s.hole d.slot).h_next s)
          (merge_last-join s (s.hole c.slot).h_next d ds fs (Owns-tail s p c (d ∷ ds) fs o) fit.1)
          (λ _ t. Rewrites-cons s t p c (d ∷ ds) fs (join_one d ds) o))
]

-- `merge` on the first hole of a list joins the first three where they touch, and keeps the rest.
pub merge-join :
    (s : Table) (p : Ptr) (c : Cell) (cs fs : Cells)
    → Owns s p (c ∷ cs) fs
    → Fits (c ∷ cs)
    → Returns (λ _ t. Rewrites s t p (c ∷ cs) fs (join_two c cs)) (merge c.slot s)
unfolding merge
merge-join s p c cs fs o fit = merge_first-join s p c cs fs o fit
