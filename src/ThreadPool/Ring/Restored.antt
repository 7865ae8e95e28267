-- ===== src/ThreadPool/Ring/Restored.antt =====
-- pthreads/thr_pool.c: a pool that is created and destroyed leaves the ring as it was.
use tcp_and_parallel.Prelude.{
  ℕ, ◌≡◌, ◌≢◌, refl, sym, ap, subst, ◌∙◌, false, Option, none, some, ◌==◌, inl, inr, Bool-cases,
  ==_self, ==_of_ne, eq_of_==,
}
use tcp_and_parallel.ThreadPool.Ring.{
  Ring, insert_before, insert_pool, unlink_pool, remove_from, advance, remove_pool,
}

-- The first pool is linked to itself through its neighbour, and neither is `pool`.
abbrev pub Apart : ℕ → Ring → Option ℕ → Type 0
Apart pool r none = Unit
Apart pool r (some first) = (r.forw (r.back first) ≡ first) × (first ≢ pool) × (r.back first ≢ pool)

-- The same pools stand in the same order; only the links of `pool` itself may differ.
pub record SameRing (pool : ℕ) (r t : Ring) : Type 0 where
  pub first : t.thr_pools ≡ r.thr_pools
  pub forw : (x : ℕ) → x ≢ pool → t.forw x ≡ r.forw x
  pub back : (x : ℕ) → x ≢ pool → t.back x ≡ r.back x

-- `pool` is not the first one.
remove_pool-later :
    (pool f : ℕ) (s : Ring)
    → s.thr_pools ≡ some f
    → (f == pool) ≡ false
    → remove_pool pool s ≡ unlink_pool pool (record s { thr_pools = some f })
unfolding remove_pool remove_from advance
remove_pool-later pool f s e other =
    ap (λ o. remove_from pool (advance pool s o) s) e
    ∙ (ap (λ o. remove_from pool o s) (moved pool f s other) ∙ last pool f s other)
  where
    moved : (pool f : ℕ) (s : Ring) → (f == pool) ≡ false → advance pool s (some f) ≡ some f
    moved pool f s other = rw other refl

    last :
        (pool f : ℕ) (s : Ring)
        → (f == pool) ≡ false
        → remove_from pool (some f) s ≡ unlink_pool pool (record s { thr_pools = some f })
    last pool f s other = rw other refl

-- `pool` is the only one.
remove_pool-only :
    (pool : ℕ) (s : Ring)
    → s.thr_pools ≡ some pool
    → s.forw pool ≡ pool
    → remove_pool pool s ≡ record s { thr_pools = none }
unfolding remove_pool remove_from advance
remove_pool-only pool s e self =
    ap (λ o. remove_from pool (advance pool s o) s) e
    ∙ (ap (λ o. remove_from pool o s) (moved pool s self) ∙ last pool s)
  where
    moved : (pool : ℕ) (s : Ring) → s.forw pool ≡ pool → advance pool s (some pool) ≡ some pool
    moved pool s self = rw (==_self pool) (ap (λ (x : ℕ). some x) self)

    last : (pool : ℕ) (s : Ring) → remove_from pool (some pool) s ≡ record s { thr_pools = none }
    last pool s = rw (==_self pool) refl

insert_before-remove :
    (pool : ℕ) (r : Ring) (o : Option ℕ)
    → r.thr_pools ≡ o
    → Apart pool r o
    → SameRing pool r (remove_pool pool (insert_before pool o r))
unfolding insert_before unlink_pool
insert_before-remove pool r none e a =
    subst (SameRing pool r)
      (sym (remove_pool-only pool (insert_before pool none r) refl (rw (==_self pool) refl)))
      (record {
        first = sym e;
        forw = λ x h. rw (==_of_ne pool x (λ e. h (sym e))) refl;
        back = λ x h. rw (==_of_ne pool x (λ e. h (sym e))) refl;
      })
insert_before-remove pool r (some f) e (links, other, apart) =
    subst (SameRing pool r)
      (sym (remove_pool-later pool f (insert_before pool (some f) r) e (==_of_ne f pool other)))
      (record {
        first = sym e;
        forw = λ x h.
            rw (==_self pool, ==_of_ne f pool other, ==_of_ne pool x (λ e. h (sym e)))
              (elim (Bool-cases (r.back f == x)) [
                | inl here ↦ rw here (sym links ∙ ap r.forw (eq_of_== (r.back f) x here))
                | inr there ↦ rw there refl
              ]);
        back = λ x h.
            rw
              (
                ==_self pool,
                ==_of_ne f pool other,
                ==_of_ne (r.back f) pool apart,
                ==_of_ne pool x (λ e. h (sym e)),
              )
              (elim (Bool-cases (f == x)) [
                | inl here ↦ rw here (ap r.back (eq_of_== f x here))
                | inr there ↦ rw there refl
              ]);
      })

-- When the first pool is linked to itself through its neighbour and neither is the new pool, entering
-- the pool into the ring and taking it out again leaves `thr_pools` and the links of every other
-- pool as they were.
pub insert_pool-remove_pool :
    (pool : ℕ) (r : Ring)
    → Apart pool r r.thr_pools
    → SameRing pool r (remove_pool pool (insert_pool pool r))
unfolding insert_pool
insert_pool-remove_pool pool r a = insert_before-remove pool r r.thr_pools refl a
