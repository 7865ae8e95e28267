-- ===== src/Alloc/Holes/Insert.antt =====
-- minix/alloc.c: `free_mem` puts a block into the list of holes.
use native.Mathlib.Numerals.{add-one}
use tcp_and_parallel.Prelude.{
  ℕ, ◌+◌, ◌≤◌, ◌<◌, ◌≡◌, refl, sym, ◌∙◌, true, false, some, none, inl, inr, [], ◌∷◌, arith, ◌==◌,
  leb, ltb, u32_mod, Bool-cases, length, ==_self, update,
}
use tcp_and_parallel.Alloc.Table.{Ptr, Table, Config, ok, panic}
use tcp_and_parallel.Alloc.Cells.{Cell, Cells, Once, length-Once}
use tcp_and_parallel.Alloc.Chain.{Chain-update}
use tcp_and_parallel.Alloc.Rewrites.{
  Returns, Returns-mono, Owns, Rewrites, IsTable, IsTable-Owns, Rewrites-IsTable,
}
use tcp_and_parallel.Alloc.Spec.{Fits, join_two, insert_behind, free_cells}
use tcp_and_parallel.Alloc.Holes.{merge, free_loop, push_front, place, take_slot, free_mem}
use tcp_and_parallel.Alloc.Holes.Merge.{merge-join}
use tcp_and_parallel.Alloc.Holes.Pending.{free_loop-insert, Pending}

module _ (nr : ℕ) (new : Cell) (fs : Cells) where
  -- The counts of a table that has the slot of `new` on its list of free slots.
  abbrev Waiting : Table → Cells → Type 0
  Waiting s cs = Pending s s.hole_head cs fs new × Once nr cs (new ∷ fs)

  push_front-join :
      (s : Table) (hp : Ptr) (cs : Cells)
      → hp ≡ s.hole_head
      → Waiting s cs
      → Fits (new ∷ cs)
      → Returns (λ _ t. (ys : Cells) × IsTable nr t (join_two new cs) ys) (push_front new.slot hp s)
  unfolding push_front
  push_front-join s hp cs e (w, once) fit =
      let u : Table = record s {
        hole = update s.hole new.slot (record (s.hole new.slot) { h_next = hp });
        hole_head = some new.slot;
      } in
      let i : IsTable nr u (new ∷ cs) fs = record {
        holes = (
          refl,
          ground (arith, w.base),
          ground (arith, w.len),
          rw (==_self new.slot, e)
              (Chain-update s.hole s.hole_head cs new.slot _ (ground (arith, w.distinct new.slot))
                w.owns.chain),
        );
        free =
            Chain-update s.hole s.free_slots fs new.slot _ (ground (arith, w.distinct new.slot))
              w.owns.free;
        once = λ a. omega (arith, once a);
      } in
      Returns-mono _ _ (merge new.slot u)
        (merge-join u (some new.slot) new cs fs (IsTable-Owns nr u (new ∷ cs) fs i) fit)
        (λ _ t r. (r.freed, Rewrites-IsTable nr u t (new ∷ cs) fs (join_two new cs) i r))

  Rewrites-Waiting :
      (s t : Table) (cs ys : Cells)
      → Once nr cs (new ∷ fs)
      → Rewrites s t s.hole_head cs (new ∷ fs) ys
      → (zs : Cells) × IsTable nr t ys zs
  Rewrites-Waiting s t cs ys once r =
      (r.freed, record { holes = rw r.head r.chain; free = r.free; once = λ a. r.once a ∙ once a })

  place-insert :
      (g : Config) (s : Table) (hp : Ptr) (cs : Cells)
      → hp ≡ s.hole_head
      → Waiting s cs
      → Fits cs
      → new.base + new.len < u32_mod
      → length cs ≤ g.nr_holes
      → Returns
          (λ _ t. (ys : Cells) × IsTable nr t (free_cells new cs) ys)
          (place g new.base new.slot hp s)
  unfolding place free_loop
  place-insert g s hp [] at w fit end fuel =
      rw (at ∙ w.0.owns.chain) (push_front-join s none [] (sym w.0.owns.chain) w (end, fit))
  place-insert g s hp (c ∷ cs) at w fit end fuel = elim (Bool-cases (leb new.base c.base)) [
    | inl e ↦
        rw (at ∙ w.0.owns.chain.0, w.0.owns.chain.1, e)
          (push_front-join s (some c.slot) (c ∷ cs) (sym w.0.owns.chain.0) w (end, fit))
    | inr e ↦
        let below : ltb c.base new.base ≡ true = ground arith in
        rw (at ∙ w.0.owns.chain.0, w.0.owns.chain.1, e, add-one, w.0.owns.chain.1, below)
          (Returns-mono _ _
            (free_loop g.nr_holes new.base new.slot (some c.slot) (s.hole c.slot).h_next s)
            (free_loop-insert new fs g.nr_holes s s.hole_head c cs w.0 fit end (omega arith))
            (λ _ t. Rewrites-Waiting s t (c ∷ cs) (insert_behind new c cs) w.1))
  ]

  -- With the slot still on the free list.
  take_slot-insert :
      (g : Config) (s : Table) (cs : Cells) (f : Cell) (slots : Ptr)
      → slots ≡ some new.slot
      → f.slot ≡ new.slot
      → IsTable nr s cs (f ∷ fs)
      → Fits cs
      → new.base + new.len < u32_mod
      → nr ≡ g.nr_holes
      → Returns
          (λ _ t. (ys : Cells) × IsTable nr t (free_cells new cs) ys)
          (take_slot g new.base new.len slots s)
  unfolding take_slot
  take_slot-insert g s cs f slots at e i fit end n =
      let u : Table = record s {
        hole =
            update s.hole new.slot
              (record (s.hole new.slot) { h_base = new.base; h_len = new.len });
        free_slots = (s.hole new.slot).h_next;
      } in
      let o : Owns s s.hole_head cs (f ∷ fs) = IsTable-Owns nr s cs (f ∷ fs) i in
      let v : Owns u s.hole_head cs fs = record {
        chain =
            Chain-update s.hole s.hole_head cs new.slot _ (ground (arith, o.distinct new.slot))
              i.holes;
        free =
            Chain-update s.hole (s.hole new.slot).h_next fs new.slot _
              (ground (arith, o.distinct new.slot)) (rw e at i.free.3);
        distinct = λ a. omega (arith, o.distinct a);
        inner = λ a k. o.inner a (omega arith);
      } in
      rw at (
        place-insert g u s.hole_head cs refl
          (
            record {
              owns = v;
              base = ground arith;
              len = ground arith;
              distinct = λ a. ground (arith, o.distinct a);
              off = o.inner new.slot (ground arith);
            },
            λ a. ground (arith, i.once a),
          )
          fit end (omega (arith, length-Once nr cs (f ∷ fs) i.once)))

-- `free_mem` of a block that is not empty takes the first free slot and inserts the block: no
-- pointer goes wrong, and the fuel suffices.
pub free_mem-insert :
    (g : Config) (s : Table) (cs fs : Cells) (f : Cell) (base clicks : ℕ)
    → IsTable g.nr_holes s cs (f ∷ fs)
    → Fits cs
    → 0 < clicks
    → base + clicks < u32_mod
    → Returns
        (λ _ t.
          (ys : Cells) × IsTable g.nr_holes t
            (free_cells (record { slot = f.slot; base = base; len = clicks }) cs)
            ys)
        (free_mem g base clicks s)
unfolding free_mem
free_mem-insert g s cs fs f base clicks i fit pos end =
    let some_clicks : (clicks == 0) ≡ false = ground arith in
    rw some_clicks (
      take_slot-insert g.nr_holes (record { slot = f.slot; base = base; len = clicks }) fs g s cs f
        s.free_slots i.free.0 refl i fit end refl)

pub free_mem-empty : (g : Config) (s : Table) (base : ℕ) → free_mem g base 0 s ≡ ok tt s
unfolding free_mem
free_mem-empty g s base = refl

-- With no free slot `free_mem` of a block that is not empty panics.
free_mem-panic :
    (g : Config) (s : Table) (base clicks : ℕ)
    → 0 < clicks
    → s.free_slots ≡ none
    → free_mem g base clicks s ≡ panic
unfolding free_mem take_slot
free_mem-panic g s base clicks pos e = ground arith
