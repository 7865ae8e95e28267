-- ===== src/Alloc/Dma/RoundTrip.antt =====
-- minix/alloc.c: `do_deldma` takes back what `do_adddma` did.
use tcp_and_parallel.Prelude.{
  ℕ, ◌<◌, ◌≡◌, refl, sym, ap, subst, Bool, true, false, not, Option, none, some, arith,
  if◌then◌else◌, ◌==◌, inl, inr, Bool-cases, update, ==_self, eq_of_==,
}
use tcp_and_parallel.Alloc.Dma.{
  nr_dma, Region, Code, ok, einval, find_first, matches, State, add_at, add_found, do_adddma,
  clear_in_use, release, del_found, do_deldma,
}
use tcp_and_parallel.Alloc.Dma.Found.{First, find_first-First}

module _ {M : Type 0} (free_mem : ℕ → ℕ → M → Option M) (vm_isokendpt : ℕ → Option ℕ) where
  -- After the two calls: the same entries are in use, with the same contents, and no memory was freed.
  pub record TakenBack (s : State M) (r : Option (Code × State M)) : Type 0 where
    pub state : State M
    pub returns : r ≡ some (ok, state)
    pub same_use : (j : ℕ) → (state.dmatab j).in_use ≡ (s.dmatab j).in_use
    pub same : (j : ℕ) → (s.dmatab j).in_use ≡ true → state.dmatab j ≡ s.dmatab j
    pub memory : state.memory ≡ s.memory

  abbrev added : Region → ℕ → ℕ → State M → State M
  added m i proc_n s = record s {
    has_dma = update s.has_dma proc_n true;
    dmatab = update s.dmatab i (record (s.dmatab i) {
      in_use = true;
      release_dma = false;
      release_seg = false;
      proc = m.proc;
      base = m.base;
      size = m.size;
    });
  }

  matches-added :
      (m : Region) (i n : ℕ) (s : State M) (p : ℕ)
      → ((j : ℕ) → j < nr_dma → matches s.dmatab m j ≡ false)
      → n < nr_dma
      → matches (added m i p s).dmatab m n ≡ true
      → n ≡ i
  matches-added m i n s p new lt hit = elim (Bool-cases (i == n)) [
    | inl here ↦ sym (eq_of_== i n here)
    | inr other ↦
        (let old : matches (added m i p s).dmatab m n ≡ matches s.dmatab m n = rw other refl in
          let no : ⊥ = ground (arith, new n lt) in elim no [ ])
  ]

  added-matches :
      (m : Region) (i : ℕ) (s : State M) (p : ℕ) → matches (added m i p s).dmatab m i ≡ true
  added-matches m i s p = rw (==_self i, ==_self m.proc, ==_self m.base, ==_self m.size) refl

  clear_in_use-kept :
      (i : ℕ) (s : State M) (b : Bool) (o : Option (State M))
      → b ≡ false
      → clear_in_use free_mem vm_isokendpt i (if b then o else some s)
        ≡ some
            (ok, record s { dmatab = update s.dmatab i (record (s.dmatab i) { in_use = false }) })
  unfolding clear_in_use
  clear_in_use-kept i s true o e = let no : ⊥ = ground arith in elim no [ ]
  clear_in_use-kept i s false o e = refl

  del_found-TakenBack :
      (m : Region) (i p : ℕ) (s : State M) (o : Option ℕ)
      → i < nr_dma
      → (s.dmatab i).in_use ≡ false
      → ((j : ℕ) → j < nr_dma → matches s.dmatab m j ≡ false)
      → First (matches (added m i p s).dmatab m) nr_dma 0 o
      → TakenBack s (del_found free_mem vm_isokendpt m o (added m i p s))
  unfolding del_found clear_in_use release
  del_found-TakenBack m i p s none lt unused new f =
      let no : ⊥ = ground (arith, f i (omega arith) lt, added-matches m i s p) in elim no [ ]
  del_found-TakenBack m i p s (some n) lt unused new f =
      let same : n ≡ i = matches-added m i n s p new f.2 f.0 in
      subst (λ n. TakenBack s (del_found free_mem vm_isokendpt m (some n) (added m i p s)))
        (sym same)
        (record {
          state = record (added m i p s) {
            dmatab =
                update (added m i p s).dmatab i
                  (record ((added m i p s).dmatab i) { in_use = false });
          };
          returns =
              clear_in_use-kept i (added m i p s) ((added m i p s).dmatab i).release_seg _
                (rw (==_self i) refl);
          same_use = λ j. elim (Bool-cases (i == j)) [
            | inl here ↦
                rw here (sym (subst (λ j. (s.dmatab j).in_use ≡ false) (eq_of_== i j here) unused))
            | inr other ↦ rw (other) refl
          ];
          same = λ j used. elim (Bool-cases (i == j)) [
            | inl here ↦
                (let free : (s.dmatab j).in_use ≡ false =
                    subst (λ j. (s.dmatab j).in_use ≡ false) (eq_of_== i j here) unused in
                  let no : ⊥ = ground (arith, free, used) in elim no [ ])
            | inr other ↦ rw (other) refl
          ];
          memory = refl;
        })

  some_inj : (a b : Code × State M) → some a ≡ some b → a ≡ b
  some_inj a b e = cc

  add_at-TakenBack :
      (m : Region) (s t : State M) (i : ℕ) (o : Option ℕ)
      → i < nr_dma
      → (s.dmatab i).in_use ≡ false
      → ((j : ℕ) → j < nr_dma → matches s.dmatab m j ≡ false)
      → some (add_at free_mem vm_isokendpt i m o s) ≡ some (ok, t)
      → TakenBack s (do_deldma free_mem vm_isokendpt m t)
  unfolding add_at do_deldma
  add_at-TakenBack m s t i none lt unused new e =
      let not_ok : einval ≡ ok = ap (λ (r : Code × State M). r.0) (some_inj _ _ e) in
      let no : ⊥ = ground arith in elim no [ ]
  add_at-TakenBack m s t i (some p) lt unused new e =
      subst (λ t. TakenBack s (do_deldma free_mem vm_isokendpt m t))
        (ap (λ (r : Code × State M). r.1) (some_inj _ _ e))
        (del_found-TakenBack m i p s (find_first (matches (added m i p s).dmatab m) nr_dma 0) lt
          unused new (find_first-First (matches (added m i p s).dmatab m) nr_dma 0))

  add_found-TakenBack :
      (m : Region) (s t : State M) (o : Option ℕ)
      → First (λ i. not (s.dmatab i).in_use) nr_dma 0 o
      → ((j : ℕ) → j < nr_dma → matches s.dmatab m j ≡ false)
      → add_found free_mem vm_isokendpt m o s ≡ some (ok, t)
      → TakenBack s (do_deldma free_mem vm_isokendpt m t)
  unfolding add_found
  add_found-TakenBack m s t none f new e = let no : ⊥ = ground arith in elim no [ ]
  add_found-TakenBack m s t (some i) f new e =
      add_at-TakenBack m s t i (vm_isokendpt m.proc) f.2 (ground (arith, f.0)) new e

  -- When `do_adddma` has entered a region that no entry in use described before, `do_deldma` of the
  -- same region returns OK: then the same entries are in use as at first, with the same contents,
  -- and no memory has been freed.
  pub do_adddma-do_deldma :
      (m : Region) (s t : State M)
      → ((j : ℕ) → j < nr_dma → matches s.dmatab m j ≡ false)
      → do_adddma free_mem vm_isokendpt m s ≡ some (ok, t)
      → TakenBack s (do_deldma free_mem vm_isokendpt m t)
  unfolding do_adddma
  do_adddma-do_deldma m s t new e =
      add_found-TakenBack m s t (find_first (λ i. not (s.dmatab i).in_use) nr_dma 0)
        (find_first-First (λ i. not (s.dmatab i).in_use) nr_dma 0) new e
