-- ===== src/Alloc/Pages/Give.antt =====
-- minix/alloc.c: `free_pages`.
use tcp_and_parallel.Prelude.{
  ℕ, ◌+◌, ◌-◌, ◌<◌, ◌≡◌, refl, sym, subst, ap, ◌∙◌, inl, inr, true, ◌||◌, Option, none, some, arith,
  ltb, ◌==◌, Bool-cases, Option-cases, eq_of_==,
}
use tcp_and_parallel.Alloc.Regions.{within}
use tcp_and_parallel.Alloc.Avl.{
  PageRange, Sorted, Increasing, find_at, remove_at, replace_at, before, AddrAvl,
}
use tcp_and_parallel.Alloc.Pages.{add_range, join_lower, join_found, free_checked, free_pages}
use tcp_and_parallel.Alloc.Pages.Spans.{page_at, Clear, Sorted-Increasing}
use tcp_and_parallel.Alloc.Pages.Grown.{
  range, find_at-From, find_at-Clear, Grown, replace-Grown, insert-Grown,
}
use tcp_and_parallel.Alloc.Pages.Fused.{fuse, Fused, fuse-Fused, Increasing-replace, From-zero}

module _ (A : AddrAvl) where
  open A use {
    Tree, ranges, search, insert, remove, write, search_lem, ranges-insert, ranges-remove,
    ranges-write,
  }

  join_lower-Fused :
      (pr : PageRange) (lower : Option PageRange) (t : Tree)
      → lower ≡ before pr.addr (ranges t)
      → Sorted (ranges t)
      → find_at pr.addr (ranges t) ≡ some pr
      → Fused (ranges t) (ranges (join_lower A pr lower t))
  unfolding join_lower Fused
  join_lower-Fused pr none t at s f = ((λ a. refl), s, λ m h. h)
  join_lower-Fused pr (some p) t at s f = elim (Bool-cases (p.addr + p.size == pr.addr)) [
    | inl e ↦
        let up : Increasing (ranges t) = Sorted-Increasing (ranges t) s in
        let grown : ranges (write p.addr (range p.addr (p.size + pr.size)) t)
            ≡ replace_at p.addr (range p.addr (p.size + pr.size)) (ranges t) =
          ranges-write p.addr _ t up in
        let both : ranges (remove pr.addr (write p.addr (range p.addr (p.size + pr.size)) t))
            ≡ fuse pr.addr p pr (ranges t) =
          ranges-remove pr.addr _
            (rw grown (Increasing-replace p.addr (p.size + pr.size) (ranges t) up))
          ∙ (unfold fuse in ap (remove_at pr.addr) grown) in
        rw (e, both) (fuse-Fused pr.addr (ranges t) p pr s f (sym at) (eq_of_== _ _ e))
    | inr e ↦ rw e ((λ a. refl), s, λ m h. h)
  ]

  -- The outcome of a call that gives back the `n` pages from `b`.
  pub record Given (b n : ℕ) (t u : Tree) : Type 0 where
    pub free : (a : ℕ) → page_at (ranges u) a ≡ (within b n a || page_at (ranges t) a)
    pub sorted : Sorted (ranges u)

  join_found-Given :
      (b n : ℕ) (pr : PageRange) (t u : Tree)
      → pr.addr ≡ b
      → Grown b n pr (ranges t) (ranges u)
      → (v : Tree) × (join_found A (some (pr, u)) ≡ some v) × Given b n t v
  unfolding join_found Fused
  join_found-Given b n pr t u e g =
      let f =
        join_lower-Fused pr (before pr.addr (ranges u)) u refl g.sorted
          (subst (λ x. find_at x (ranges u) ≡ some pr) (sym e) g.found) in
      (
        join_lower A pr (before pr.addr (ranges u)) u,
        refl,
        record { free = λ a. f.0 a ∙ g.page a; sorted = f.1 },
      )

  -- Given back to ranges in order, of which none holds any of them, and with memory for a new node,
  -- the pages are free afterwards; all others are as they were, and the ranges are in order.
  pub free_pages-Given :
      (b n : ℕ) (t : Tree)
      → 0 < n
      → Sorted (ranges t)
      → Clear b n (ranges t)
      → (u : Tree) × (free_pages A true b n t ≡ some u) × Given b n t u
  unfolding free_pages free_checked add_range
  free_pages-Given b n t pos s c =
      let up : Increasing (ranges t) = Sorted-Increasing (ranges t) s in
      let gone : find_at b (ranges t) ≡ none = find_at-Clear b n (ranges t) pos s c in
      let absent : search b t ≡ none = search_lem b t up ∙ gone in
      elim (Option-cases (search (b + n) t)) [
        | inl e ↦
            let ok : ltb 0 n ≡ true = ground arith in
            rw (absent, e, ok)
              (join_found-Given b n (range b n) t (insert (range b n) t) refl
                (rw (ranges-insert (range b n) t up gone) (insert-Grown b n (ranges t) pos s c)))
        | inr (p, e) ↦
            let found : find_at (b + n) (ranges t) ≡ some p = sym (search_lem (b + n) t up) ∙ e in
            let at : p.addr ≡ b + n =
              (find_at-From 0 (b + n) (ranges t) p (From-zero (ranges t)) s found).1 in
            let start : p.addr - n ≡ b = omega arith in
            rw (absent, e)
              (join_found-Given b n (range (p.addr - n) (p.size + n)) t
                (write p.addr (range (p.addr - n) (p.size + n)) t) start
                (rw (ranges-write p.addr (range (p.addr - n) (p.size + n)) t up) (
                  subst
                    (λ x.
                      Grown b n (range (p.addr - n) (p.size + n)) (ranges t)
                        (replace_at x (range (p.addr - n) (p.size + n)) (ranges t)))
                    (sym at) (replace-Grown b n (ranges t) p pos s c found))))
      ]
