-- ===== src/Matrix/Chain/Links.antt =====
-- sefdm/algorythms/test.list.161.c: what `table_append` does to the links of a column.
use tcp_and_parallel.Prelude.{
  ℕ, ◌≡◌, ◌≢◌, refl, sym, subst, ◌∙◌, inl, inr, List, [], ◌∷◌, ◌++◌, map, Option, none, some,
  Option-cases, update, ==_of_ne, arith,
}
use tcp_and_parallel.Matrix.Table.{Node}
use tcp_and_parallel.Matrix.Chain.{Cell, first_or, link_after}

abbrev pub last? : List ℕ → Option ℕ
last? [] = none
last? (p ∷ []) = some p
last? (p ∷ q ∷ ps) = last? (q ∷ ps)

abbrev pub Absent : ℕ → List ℕ → Type 0
Absent a [] = Unit
Absent a (b ∷ bs) = (a ≢ b) × Absent a bs

abbrev pub Once : List ℕ → Type 0
Once [] = Unit
Once (a ∷ as') = Absent a as' × Once as'

pub ne_last : (a q : ℕ) (ps : List ℕ) → Absent a ps → last? ps ≡ some q → a ≢ q
ne_last a q [] out e = cc
ne_last a q (p ∷ []) out e = λ same. let at : a ≡ p = cc in out.0 at
ne_last a q (p ∷ p' ∷ ps) out e = ne_last a q (p' ∷ ps) out.1 e

pub last?-ne-none : (a : ℕ) (ps : List ℕ) → last? (a ∷ ps) ≢ none
last?-ne-none a [] e = cc
last?-ne-none a (p ∷ ps) e = last?-ne-none p ps e

pub Absent-snoc : (q new : ℕ) (ps : List ℕ) → Absent q ps → q ≢ new → Absent q (ps ++ new ∷ [])
Absent-snoc q new [] out ne = (ne, tt)
Absent-snoc q new (p ∷ ps) out ne = (out.0, Absent-snoc q new ps out.1 ne)

pub Once-snoc : (new : ℕ) (ps : List ℕ) → Once ps → Absent new ps → Once (ps ++ new ∷ [])
Once-snoc new [] once out = (tt, tt)
Once-snoc new (p ∷ ps) once out =
    (Absent-snoc p new ps once.0 (λ same. out.0 (sym same)), Once-snoc new ps once.1 out.1)

-- The last node is another than a new one.
pub new_ne_last : (new q : ℕ) (ps : List ℕ) → Absent new ps → last? ps ≡ some q → q ≢ new
new_ne_last new q ps out e same = ne_last new q ps out e (sym same)

pub last?-snoc : (ps : List ℕ) (q : ℕ) → last? (ps ++ q ∷ []) ≡ some q
last?-snoc [] q = refl
last?-snoc (p ∷ []) q = refl
last?-snoc (p ∷ p' ∷ ps) q = last?-snoc (p' ∷ ps) q

module _ {D : Type 0} where
  -- From `p` the links lead through these addresses to NULL.
  abbrev pub Links : (ℕ → Cell D) → Option ℕ → List ℕ → Type 0
  Links cells p [] = p ≡ none
  Links cells p (a ∷ as') = (p ≡ some a) × Links cells (cells a).next as'

  pub Links-update :
      (cells : ℕ → Cell D) (a : ℕ) (v : Cell D) (p : Option ℕ) (ps : List ℕ)
      → Absent a ps
      → Links cells p ps
      → Links (update cells a v) p ps
  Links-update cells a v p [] out h = h
  Links-update cells a v p (b ∷ bs) out (at, rest) =
      (at, rw (==_of_ne a b out.0) (Links-update cells a v (cells b).next bs out.1 rest))

  pub same_nodes :
      (f g : ℕ → Cell D) (ps : List ℕ)
      → ((q : ℕ) → (f q).node ≡ (g q).node)
      → map (λ q. (f q).node) ps ≡ map (λ q. (g q).node) ps
  same_nodes f g [] e = refl
  same_nodes f g (p ∷ ps) e = rw (e p, same_nodes f g ps e)

  -- The cells after the append: the links are others, the nodes the same.
  abbrev pub appended : (ℕ → Cell D) → Option ℕ → ℕ → ℕ → Cell D
  appended cells tail new =
      link_after tail new (update cells new (record { node = (cells new).node; next = none }))

  pub appended-node :
      (cells : ℕ → Cell D) (tail : Option ℕ) (new q : ℕ)
      → (appended cells tail new q).node ≡ (cells q).node
  unfolding link_after
  appended-node cells none new q = ground arith
  appended-node cells (some last) new q = ground arith

  pub Links-snoc :
      (cells : ℕ → Cell D) (new q : ℕ) (p : Option ℕ) (ps : List ℕ) (x : Node D)
      → (cells new).next ≡ none
      → last? ps ≡ some q
      → Once ps
      → Absent new ps
      → Links cells p ps
      → Links (update cells q (record { node = x; next = some new })) p (ps ++ new ∷ [])
  Links-snoc cells new q p [] x e last once out h = cc
  Links-snoc cells new q p (a ∷ []) x e last once out h =
      (h.0, (ground arith, ground (arith, out.0)))
  Links-snoc cells new q p (a ∷ b ∷ bs) x e last once out (at, rest) =
      let other : q ≢ a = λ same. ne_last a q (b ∷ bs) once.0 last (sym same) in
      (
        at,
        rw (==_of_ne q a other)
            (Links-snoc cells new q (cells a).next (b ∷ bs) x e last once.1 out.1 rest),
      )

  pub Links-appended :
      (cells : ℕ → Cell D) (head tail : Option ℕ) (new : ℕ) (ps : List ℕ)
      → Links cells head ps
      → tail ≡ last? ps
      → Once ps
      → Absent new ps
      → Links (appended cells tail new) (first_or head new) (ps ++ new ∷ [])
  unfolding link_after first_or
  Links-appended cells head tail new [] h t once out = rw (h, t) (refl, ground arith)
  Links-appended cells head tail new (a ∷ as') h t once out =
      elim (Option-cases (last? (a ∷ as'))) [
        | inl empty ↦ absurd (last?-ne-none a as' empty)
        | inr (q, e) ↦
            subst
              (λ (p : Option ℕ).
                Links (appended cells tail new) (first_or p new) ((a ∷ as') ++ new ∷ []))
              (sym h.0)
              (subst
                (λ (p : Option ℕ). Links (appended cells p new) (some a) ((a ∷ as') ++ new ∷ []))
                (sym (t ∙ e))
                (Links-snoc (update cells new (record { node = (cells new).node; next = none })) new
                  q (some a) (a ∷ as')
                  (update cells new (record { node = (cells new).node; next = none }) q).node
                  (ground arith) e once out
                  (Links-update cells new (record { node = (cells new).node; next = none }) (some a)
                    (a ∷ as') out (refl, h.1))))
      ]

  pub Links-other :
      (cells : ℕ → Cell D) (tail p : Option ℕ) (new : ℕ) (ps : List ℕ)
      → Absent new ps
      → ((q : ℕ) → tail ≡ some q → Absent q ps)
      → Links cells p ps
      → Links (appended cells tail new) p ps
  unfolding link_after
  Links-other cells none p new ps out apart h = Links-update cells new _ p ps out h
  Links-other cells (some q) p new ps out apart h =
      Links-update _ q _ p ps (apart q refl) (Links-update cells new _ p ps out h)

  pub map-snoc :
      (f : ℕ → Node D) (ps : List ℕ) (new : ℕ) → map f (ps ++ new ∷ []) ≡ map f ps ++ f new ∷ []
  map-snoc f [] new = refl
  map-snoc f (p ∷ ps) new = rw (map-snoc f ps new)
