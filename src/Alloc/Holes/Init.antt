-- ===== src/Alloc/Holes/Init.antt =====
-- minix/alloc.c: `mem_init`.
use mathlib.Core.List.{reverse-append}
use tcp_and_parallel.Prelude.{
  ℕ, zero, suc, ◌+◌, ◌-◌, ◌≤◌, ◌<◌, ◌≡◌, refl, Bool, true, false, ◌&&◌, ◌||◌, some, inl, inr, List,
  [], ◌∷◌, ◌++◌, reverse, arith, ◌==◌, leb, ltb, if◌then◌else◌, u32_mod, Bool-cases, length,
  length-append,
}
use tcp_and_parallel.Alloc.Table.{Table, Config, Run, ok, fault, panic, out_of_fuel, and_then}
use tcp_and_parallel.Alloc.Cells.{Cells, times}
use tcp_and_parallel.Alloc.Chain.{Chain}
use tcp_and_parallel.Alloc.Rewrites.{Returns, Returns-bind, Returns-mono}
use tcp_and_parallel.Alloc.Regions.{within, free_at}
use tcp_and_parallel.Alloc.Holes.{
  Memory, Extent, empty_table, extend, free_chunks, mem_init, free_mem,
}
use tcp_and_parallel.Alloc.Holes.Correct.{Stands, free_mem-Frees}

-- The free list that `mem_init` builds: the slots from `i` on.
unused : ℕ → ℕ → Cells
unused i zero = []
unused i (suc n) = record { slot = i; base = 0; len = 0 } ∷ unused (i + 1) n

times-unused : (a i n : ℕ) → times a (unused i n) ≡ (if leb i a && ltb a (i + n) then 1 else 0)
unfolding unused
times-unused a i zero = ground arith
times-unused a i (suc n) = ground (arith, times-unused a (i + 1) n)

unused-Chain :
    (g : Config) (i n : ℕ)
    → i + suc n ≡ g.nr_holes
    → Chain (empty_table g).hole (some i) (unused i (suc n))
unfolding unused empty_table
unused-Chain g i zero e =
    let last : (i + 1 == g.nr_holes) ≡ true = ground arith in (refl, refl, refl, rw last)
unused-Chain g i (suc n) e =
    let more : (i + 1 == g.nr_holes) ≡ false = ground arith in
    (refl, refl, refl, rw more (unused-Chain g (i + 1) n (omega arith)))

empty_table-Stands : (g : Config) (n : ℕ) → g.nr_holes ≡ suc n → Stands g (empty_table g) []
unfolding empty_table
empty_table-Stands g n e = record {
  slots = unused 0 (suc n);
  table = record {
    holes = refl;
    free = unused-Chain g 0 n (omega arith);
    once = λ a. ground (arith, times-unused a 0 (suc n));
  };
  ordered = tt;
  fits = tt;
}

-- Some chunk holds the address.
abbrev pub chunk_at : List Memory → ℕ → Bool
chunk_at [] a = false
chunk_at (m ∷ ms) a = within m.base m.size a || chunk_at ms a

-- The chunks end within the address range, and no two share an address.
abbrev pub Chunks : List Memory → Type 0
Chunks [] = Unit
Chunks (m ∷ ms) =
    (m.base + m.size < u32_mod)
    × ((a : ℕ) → within m.base m.size a ≡ true → chunk_at ms a ≡ false)
    × Chunks ms

free_chunks-Stands :
    (g : Config) (ms : List Memory) (first : Bool) (x : Extent) (s : Table) (cs : Cells)
    → Stands g s cs
    → length cs + length ms ≤ g.nr_holes
    → Chunks ms
    → ((a : ℕ) → chunk_at ms a ≡ true → free_at cs a ≡ false)
    → Returns
        (λ _ t.
          (ds : Cells) × Stands g t ds × ((a : ℕ) → free_at ds a ≡ (chunk_at ms a || free_at cs a)))
        (free_chunks g first ms x s)
unfolding free_chunks
free_chunks-Stands g [] first x s cs h room c out = (cs, h, λ a. refl)
free_chunks-Stands g (m ∷ ms) first x s cs h room c out = elim (Bool-cases (ltb 0 m.size)) [
  | inl e ↦ rw e (
      Returns-bind _ _ (free_mem g m.base m.size s) _
        (free_mem-Frees g s cs m.base m.size h (omega arith) (ground arith) c.0
          (λ a w. out a (ground arith)))
        (λ _ t f.
          Returns-mono _ _ (free_chunks g false ms (extend g first m x) t)
            (free_chunks-Stands g ms false (extend g first m x) t f.holes f.stands
              (omega (arith, f.grows)) c.2 (λ a w. ground (arith, f.free a, out a, c.1 a)))
            (λ _ u r. (r.0, r.1, λ a. ground (arith, r.2 a, f.free a)))))
  | inr e ↦ rw e (
      Returns-mono _ _ (free_chunks g first ms x s)
        (free_chunks-Stands g ms first x s cs h (omega arith) c.2 (λ a w. out a (ground arith)))
        (λ _ u r. (r.0, r.1, λ a. ground (arith, r.2 a))))
]

chunk_at-append :
    (ms ns : List Memory) (a : ℕ) → chunk_at (ms ++ ns) a ≡ (chunk_at ms a || chunk_at ns a)
chunk_at-append [] ns a = refl
chunk_at-append (m ∷ ms) ns a = ground (arith, chunk_at-append ms ns a)

chunk_at-reverse : (ms : List Memory) (a : ℕ) → chunk_at (reverse ms) a ≡ chunk_at ms a
chunk_at-reverse [] a = refl
chunk_at-reverse (m ∷ ms) a =
    rw (reverse-append (m ∷ []) ms, chunk_at-append) (ground (arith, chunk_at-reverse ms a))

length-reverse : (ms : List Memory) → length (reverse ms) ≡ length ms
length-reverse [] = refl
length-reverse (m ∷ ms) =
    rw (reverse-append (m ∷ []) ms)
      (omega (arith, length-append (reverse ms) (m ∷ []), length-reverse ms))

-- On chunks that share no address, end within the address range and are no more than the slots,
-- `mem_init` returns; the table is then well formed, and the free addresses are those of the
-- chunks.
pub mem_init-Stands :
    (g : Config) (chunks : List Memory) (x : Extent)
    → 0 < g.nr_holes
    → length chunks ≤ g.nr_holes
    → Chunks (reverse chunks)
    → Returns
        (λ _ t. (cs : Cells) × Stands g t cs × ((a : ℕ) → free_at cs a ≡ chunk_at chunks a))
        (mem_init g chunks x)
unfolding mem_init
mem_init-Stands g chunks x pos room c =
    Returns-mono _ _
      (free_chunks g false (reverse chunks) (record x { total_pages = 0 }) (empty_table g))
      (free_chunks-Stands g (reverse chunks) false (record x { total_pages = 0 }) (empty_table g) []
        (empty_table-Stands g (g.nr_holes - 1) (omega arith)) (omega (arith, length-reverse chunks))
        c (λ a w. refl))
      (λ _ t r. (r.0, r.1, λ a. ground (arith, r.2 a, chunk_at-reverse chunks a)))

-- What holds of the result of a run, if it returns.
abbrev IfReturns : Run Extent → Type 0
IfReturns (ok x s) = x.mem_low ≡ 0
IfReturns _ = Unit

IfReturns-bind :
    (r : Run (Unit {0})) (k : Unit {0} → Table → Run Extent)
    → ((s : Table) → IfReturns (k tt s))
    → IfReturns (and_then r k)
IfReturns-bind (ok tt s) k h = h s
IfReturns-bind fault k h = tt
IfReturns-bind panic k h = tt
IfReturns-bind out_of_fuel k h = tt

both :
    (P : Extent → Table → Type 0) (r : Run Extent)
    → Returns P r
    → IfReturns r
    → Returns (λ x _. x.mem_low ≡ 0) r
both P (ok x s) h k = k
both P fault h k = h
both P panic h k = h
both P out_of_fuel h k = h

extend-mem_low :
    (g : Config) (m : Memory) (x : Extent) → x.mem_low ≡ 0 → (extend g false m x).mem_low ≡ 0
unfolding extend
extend-mem_low g m x e = ground arith

free_chunks-mem_low :
    (g : Config) (ms : List Memory) (x : Extent) (s : Table)
    → x.mem_low ≡ 0
    → IfReturns (free_chunks g false ms x s)
unfolding free_chunks
free_chunks-mem_low g [] x s e = e
free_chunks-mem_low g (m ∷ ms) x s e = elim (Bool-cases (ltb 0 m.size)) [
  | inl h ↦ rw h (
      IfReturns-bind (free_mem g m.base m.size s) _
        (λ t. free_chunks-mem_low g ms (extend g false m x) t (extend-mem_low g m x e)))
  | inr h ↦ rw h (free_chunks-mem_low g ms x s e)
]

-- On chunks as in `mem_init-Stands`, `mem_init` returns with `mem_low` 0 if it was 0 before:
-- whatever the lowest chunk is, `first` is never set, so the lower limit stays 0.
pub mem_init-mem_low :
    (g : Config) (chunks : List Memory) (x : Extent)
    → 0 < g.nr_holes
    → length chunks ≤ g.nr_holes
    → Chunks (reverse chunks)
    → x.mem_low ≡ 0
    → Returns (λ y _. y.mem_low ≡ 0) (mem_init g chunks x)
unfolding mem_init
mem_init-mem_low g chunks x pos room c e =
    both _ _ (mem_init-Stands g chunks x pos room c)
      (free_chunks-mem_low g (reverse chunks) (record x { total_pages = 0 }) (empty_table g) e)
