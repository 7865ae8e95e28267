-- ===== src/BubbleSort/Sorted.antt =====
-- bubbleSort.c: the array is in order afterwards.
use tcp_and_parallel.Prelude.{
  ℕ, zero, suc, ◌+◌, ◌-◌, ◌≤◌, ◌<◌, ◌≡◌, refl, sym, subst, ◌∙◌, inl, inr, Bool-cases, ltb, arith,
}
use tcp_and_parallel.BubbleSort.{swap, compare_at, inner, outer, bubblesort}

module _ {A : Type 0} (rank : A → ℕ) where
  -- After a round that has reached `m`: the greatest of the elements up to `m` stands at `m`, nothing
  -- above it has moved, and what bounded the elements up to `m` still does.
  record Bubbled (m : ℕ) (a b : ℕ → A) : Type 0 where
    greatest : (p : ℕ) → p ≤ m → rank (b p) ≤ rank (b m)
    above : (p : ℕ) → m < p → b p ≡ a p
    bound : (t : ℕ) → ((p : ℕ) → p ≤ m → rank (a p) ≤ t) → (p : ℕ) → p ≤ m → rank (b p) ≤ t

  compare_at-greatest :
      (j : ℕ) (a : ℕ → A)
      → ((p : ℕ) → p ≤ j → rank (a p) ≤ rank (a j))
      → (p : ℕ) → p ≤ j + 1
      → rank (compare_at rank j a p) ≤ rank (compare_at rank j a (j + 1))
  unfolding compare_at swap
  compare_at-greatest j a h p le = ground (arith, h p)

  compare_at-above : (j : ℕ) (a : ℕ → A) (p : ℕ) → j + 1 < p → compare_at rank j a p ≡ a p
  unfolding compare_at swap
  compare_at-above j a p lt = ground arith

  compare_at-bound :
      (j m t : ℕ) (a : ℕ → A)
      → j < m
      → ((p : ℕ) → p ≤ m → rank (a p) ≤ t)
      → (p : ℕ) → p ≤ m
      → rank (compare_at rank j a p) ≤ t
  unfolding compare_at swap
  compare_at-bound j m t a lt h p le = ground (arith, h p, h j, h (j + 1))

  inner-Bubbled :
      (k j : ℕ) (a : ℕ → A)
      → ((p : ℕ) → p ≤ j → rank (a p) ≤ rank (a j))
      → Bubbled (j + k) a (inner rank k j a)
  unfolding inner
  inner-Bubbled zero j a h =
      subst (λ m. Bubbled m a a) (omega arith)
        (record { greatest = h; above = λ p lt. refl; bound = λ t g. g })
  inner-Bubbled (suc k) j a h =
      let a' = compare_at rank j a in
      let b = inner-Bubbled k (j + 1) a' (compare_at-greatest j a h) in
      subst (λ m. Bubbled m a (inner rank k (j + 1) a')) (omega arith)
        (record {
          greatest = b.greatest;
          above = λ p lt. b.above p lt ∙ compare_at-above j a p (omega arith);
          bound = λ t g. b.bound t (compare_at-bound j (j + 1 + k) t a (omega arith) g);
        })

  -- The elements from `m` on, of `n`, are the greatest ones, in order.
  abbrev OrderedFrom : (m n : ℕ) → (ℕ → A) → Type 0
  OrderedFrom m n a = (p q : ℕ) → p ≤ q → m ≤ q → q < n → rank (a p) ≤ rank (a q)

  round-OrderedFrom :
      (m n : ℕ) (a b : ℕ → A) → Bubbled m a b → OrderedFrom (m + 1) n a → OrderedFrom m n b
  round-OrderedFrom m n a b r h p q pq mq qn = elim (Bool-cases (ltb m q)) [
    | inl later ↦
        (let same : b q ≡ a q = r.above q (ground arith) in
          subst (λ (x : A). rank (b p) ≤ rank x) (sym same)
            (elim (Bool-cases (ltb m p)) [
              | inl p-later ↦
                  subst (λ (x : A). rank x ≤ rank (a q)) (sym (r.above p (ground arith)))
                    (h p q pq (ground arith) qn)
              | inr p-first ↦
                  r.bound (rank (a q)) (λ s le. h s q (ground arith) (ground arith) qn) p
                    (ground arith)
            ]))
    | inr here ↦
        (let at : q ≡ m = ground arith in
          subst (λ (x : ℕ). rank (b p) ≤ rank (b x)) (sym at) (r.greatest p (omega arith)))
  ]

  only-first : (a : ℕ → A) (p : ℕ) → p ≤ 0 → rank (a p) ≤ rank (a 0)
  only-first a zero le = omega arith
  only-first a (suc p) le = absurd (omega arith)

  outer-OrderedFrom :
      (k i n : ℕ) (a : ℕ → A)
      → i + k + 1 ≡ n
      → OrderedFrom (n - i) n a
      → OrderedFrom 1 n (outer rank k i n a)
  unfolding outer
  outer-OrderedFrom zero i n a e h = subst (λ m. OrderedFrom m n a) (omega arith) h
  outer-OrderedFrom (suc k) i n a e h =
      let b = inner rank (n - (i + 1)) 0 a in
      let first : Bubbled (0 + (n - (i + 1))) a b =
        inner-Bubbled (n - (i + 1)) 0 a (only-first a) in
      outer-OrderedFrom k (i + 1) n b (omega arith) (
        round-OrderedFrom (n - (i + 1)) n a b (subst (λ m. Bubbled m a b) (omega arith) first)
          (subst (λ m. OrderedFrom m n a) (omega arith) h))

  -- The first `n` elements are in order.
  abbrev pub IsSorted : ℕ → (ℕ → A) → Type 0
  IsSorted n a = (p q : ℕ) → p ≤ q → q < n → rank (a p) ≤ rank (a q)

  -- After bubblesort the first n elements are in order.
  pub bubblesort-IsSorted : (a : ℕ → A) (n : ℕ) → IsSorted n (bubblesort rank a n)
  unfolding bubblesort
  bubblesort-IsSorted a zero p q pq qn = absurd (omega arith)
  bubblesort-IsSorted a (suc n) p zero pq qn =
      only-first (bubblesort rank a (suc n)) p (omega arith)
  bubblesort-IsSorted a (suc n) p (suc q) pq qn =
      outer-OrderedFrom (suc n - 1) 0 (suc n) a (omega arith)
        (λ p q pq from qn. absurd (omega arith)) p (suc q) pq (omega arith) qn
