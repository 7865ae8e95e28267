-- ===== src/Alloc/Dma/Unreleased.antt =====
-- minix/alloc.c: release_dma only panics, so nothing sets DTF_RELEASE_DMA and DTF_RELEASE_SEG.
use tcp_and_parallel.Prelude.{
  ℕ, zero, suc, ◌+◌, ◌≡◌, ◌≢◌, refl, sym, ap, subst, ◌∙◌, Bool, true, false, ◌&&◌, Option, none,
  some, ◌==◌, if◌then◌else◌, Bool-cases, inl, inr, update,
}
use tcp_and_parallel.Alloc.Dma.{
  nr_dma, Dma, Region, Code, ok, eagain, find_first, holds_segment, State, add_at, add_found,
  do_adddma, clear_in_use, release, del_found, do_deldma, get_found, do_getdma,
}

-- A call that changes the table.
pub data Request : Type 0 where
  add : Region → Request
  del : Region → Request

module _ {M : Type 0} (free_mem : ℕ → ℕ → M → Option M) (vm_isokendpt : ℕ → Option ℕ) where
  abbrev pub answer : Request → State M → Option (Code × State M)
  answer (add m) s = do_adddma free_mem vm_isokendpt m s
  answer (del m) s = do_deldma free_mem vm_isokendpt m s

  -- What requests lead to that do not panic.
  pub data Served (s : State M) : State M → Type 0 where
    here : Served s s
    after :
        (t u : State M) (r : Request) (code : Code)
        → Served s t
        → answer r t ≡ some (code, u)
        → Served s u

  -- No entry is to be released.
  abbrev pub Unreleased : State M → Type 0
  Unreleased s = (i : ℕ) → ((s.dmatab i).release_dma ≡ false) × ((s.dmatab i).release_seg ≡ false)

  -- The request leaves it so, and the memory as it is.
  data Kept (s : State M) : Option (Code × State M) → Type 0 where
    panicked : Kept s none
    went :
        (code : Code) (t : State M) → Unreleased t → t.memory ≡ s.memory → Kept s (some (code, t))

  set-Unreleased :
      (s : State M) (i : ℕ) (e : Dma)
      → Unreleased s
      → e.release_dma ≡ false
      → e.release_seg ≡ false
      → Unreleased (record s { dmatab = update s.dmatab i e })
  set-Unreleased s i e h dma seg j = elim (Bool-cases (i == j)) [
    | inl same ↦ rw same (dma, seg)
    | inr other ↦ rw other (h j)
  ]

  add_at-Kept :
      (i : ℕ) (m : Region) (p : Option ℕ) (s : State M)
      → Unreleased s
      → Kept s (some (add_at free_mem vm_isokendpt i m p s))
  unfolding add_at
  add_at-Kept i m none s h = went _ s h refl
  add_at-Kept i m (some proc_n) s h = went _ _ (set-Unreleased s i _ h refl refl) refl

  add_found-Kept :
      (m : Region) (o : Option ℕ) (s : State M)
      → Unreleased s
      → Kept s (add_found free_mem vm_isokendpt m o s)
  unfolding add_found
  add_found-Kept m none s h = panicked
  add_found-Kept m (some i) s h = add_at-Kept i m (vm_isokendpt m.proc) s h

  -- An entry without DTF_RELEASE_SEG is only marked as not in use.
  del_found-lem :
      (m : Region) (i : ℕ) (s : State M)
      → (s.dmatab i).release_seg ≡ false
      → del_found free_mem vm_isokendpt m (some i) s
        ≡ some
            (ok, record s { dmatab = update s.dmatab i (record (s.dmatab i) { in_use = false }) })
  unfolding del_found clear_in_use
  del_found-lem m i s seg =
      ap
        (λ (b : Bool). clear_in_use free_mem vm_isokendpt i (
          if b
          then release free_mem vm_isokendpt i s (find_first (holds_segment s.dmatab m i) nr_dma 0)
          else some s))
        seg

  del_found-Kept :
      (m : Region) (o : Option ℕ) (s : State M)
      → Unreleased s
      → Kept s (del_found free_mem vm_isokendpt m o s)
  unfolding del_found
  del_found-Kept m none s h = went _ s h refl
  del_found-Kept m (some i) s h =
      subst (Kept s) (sym (del_found-lem m i s (h i).1))
        (went ok _ (set-Unreleased s i _ h (h i).0 (h i).1) refl)

  answer-Kept : (r : Request) (s : State M) → Unreleased s → Kept s (answer r s)
  unfolding do_adddma do_deldma
  answer-Kept (add m) s h = add_found-Kept m _ s h
  answer-Kept (del m) s h = del_found-Kept m _ s h

  -- What a request that does not panic leads to.
  Kept-next :
      (s u : State M) (code : Code) (o : Option (Code × State M))
      → Kept s o
      → o ≡ some (code, u)
      → Unreleased u × (u.memory ≡ s.memory)
  Kept-next s u code o panicked e = absurd (cc)
  Kept-next s u code o (went code' t h same) e =
      let is : t ≡ u = cc in (subst Unreleased is h, ap (λ (t : State M). t.memory) (sym is) ∙ same)

  Served-Unreleased :
      (s u : State M) → Unreleased s → Served s u → Unreleased u × (u.memory ≡ s.memory)
  Served-Unreleased s u h here = (h, refl)
  Served-Unreleased s u h (after t v r code served at) =
      let before = Served-Unreleased s t h served in
      let now = Kept-next t u code (answer r t) (answer-Kept r t before.0) at in
      (now.0, now.1 ∙ before.1)

  find_first-none : (p : ℕ → Bool) (k i : ℕ) → ((j : ℕ) → p j ≡ false) → find_first p k i ≡ none
  find_first-none p zero i miss = refl
  find_first-none p (suc k) i miss = rw (miss i) (find_first-none p k (i + 1) miss)

  and_false : (a b : Bool) → b ≡ false → (a && b) ≡ false
  and_false true b e = e
  and_false false b e = refl

  do_getdma-eagain :
      (s : State M) → Unreleased s → do_getdma free_mem vm_isokendpt s ≡ (eagain, none)
  unfolding do_getdma get_found
  do_getdma-eagain s h =
      rw
        (find_first-none (λ i. (s.dmatab i).in_use && (s.dmatab i).release_dma) nr_dma 0
          (λ j. and_false _ _ (h j).0))
        refl

  del_found-answers :
      (m : Region) (o : Option ℕ) (s : State M)
      → Unreleased s
      → del_found free_mem vm_isokendpt m o s ≢ none
  unfolding del_found
  del_found-answers m none s h e = cc
  del_found-answers m (some i) s h e = let at = del_found-lem m i s (h i).1 in cc

  -- From a table where no entry is to be released, as it is at the start, and after any calls of
  -- do_adddma and do_deldma that did not panic, no memory has been freed whatever free_mem does,
  -- do_getdma answers EAGAIN, and do_deldma of any region does not panic.
  pub Served-NothingFreed :
      (s u : State M) (m : Region)
      → Unreleased s
      → Served s u
      → (u.memory ≡ s.memory)
        × (do_getdma free_mem vm_isokendpt u ≡ (eagain, none))
        × (do_deldma free_mem vm_isokendpt m u ≢ none)
  unfolding do_deldma
  Served-NothingFreed s u m h served =
      let now = Served-Unreleased s u h served in
      (now.1, do_getdma-eagain u now.0, del_found-answers m _ u now.0)
