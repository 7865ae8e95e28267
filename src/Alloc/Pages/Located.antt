-- ===== src/Alloc/Pages/Located.antt =====
-- minix/alloc.c: what the walk of alloc_pages finds.
use tcp_and_parallel.Prelude.{
  ℕ, ◌+◌, ◌*◌, ◌/◌, ◌≤◌, ◌<◌, ◌≡◌, refl, ◌⊎◌, inl, inr, true, false, ◌&&◌, ◌||◌, [], ◌∷◌, arith,
  leb, ltb, ◌==◌, Bool-cases,
}
use tcp_and_parallel.Alloc.Avl.{PageRange, Ranges}
use tcp_and_parallel.Alloc.Pages.{
  Flags, PageConfig, Found, block, refused, missing, aborted, within_limits, find_block,
}
use tcp_and_parallel.Alloc.Pages.Spans.{Member}

-- What the walk says of the range that it found.
abbrev pub Located : Flags → ℕ → Ranges → Found → Type 0
Located flags pages rs aborted = ⊥
Located flags pages rs refused = Unit
Located flags pages rs missing = Unit
Located flags pages rs (block pr) = Member pr rs × ((pages ≤ pr.size) ⊎ (flags.firstblock ≡ true))

pub within_limits-Located :
    (c : PageConfig) (flags : Flags) (pages : ℕ) (pr : PageRange) (rs : Ranges)
    → (leb pages pr.size || flags.firstblock) ≡ true
    → Located flags pages (pr ∷ rs) (within_limits c flags pages pr)
unfolding within_limits
within_limits-Located c flags pages pr rs h =
    let big : (pages ≤ pr.size) ⊎ (flags.firstblock ≡ true) = ground arith in
    elim (Bool-cases (flags.lower16mb && ltb (16 * 1024 * 1024 / c.page_size) (pr.addr + pages))) [
      | inl e ↦ rw e tt
      | inr e ↦
          rw e
            (elim (Bool-cases
              (flags.lower1mb && ltb (1 * 1024 * 1024 / c.page_size) (pr.addr + pages))) [
                | inl d ↦ rw d tt
                | inr d ↦ rw d (inl refl, big)
              ])
    ]

pub Located-later :
    (flags : Flags) (pages : ℕ) (r : PageRange) (rs : Ranges) (f : Found)
    → Located flags pages rs f
    → Located flags pages (r ∷ rs) f
Located-later flags pages r rs aborted l = l
Located-later flags pages r rs refused l = l
Located-later flags pages r rs missing l = l
Located-later flags pages r rs (block pr) l = (inr l.0, l.1)

pub find_block-Located :
    (c : PageConfig) (flags : Flags) (pages : ℕ) (rs : Ranges)
    → ((p : PageRange) → Member p rs → 0 < p.size)
    → Located flags pages rs (find_block c flags pages rs)
unfolding find_block
find_block-Located c flags pages [] pos = tt
find_block-Located c flags pages (r ∷ rs) pos =
    let some_pages : (r.size == 0) ≡ false =
      let h : 0 < r.size = pos r (inl refl) in ground arith in
    rw some_pages (elim (Bool-cases (leb pages r.size || flags.firstblock)) [
      | inl e ↦ rw e (within_limits-Located c flags pages r rs e)
      | inr e ↦ rw e (
          Located-later flags pages r rs (find_block c flags pages rs)
            (find_block-Located c flags pages rs (λ p m. pos p (inr m))))
    ])
