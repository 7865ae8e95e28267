-- ===== src/Prelude/Loops.antt =====
-- Counted loops whose rounds may fault, and what is shown of their results.
use Prim.Native.Nat.{ℕ, zero, suc, ◌+◌, ◌≤◌, ◌<◌}
use mathlib.Core.Path.{◌≡◌, refl, subst}
use mathlib.Core.Option.{Option, none, some}
use native.Mathlib.Omega.{arith}
use mathlib.Core.Logic.{inl, inr}
use tcp_and_parallel.Prelude.Options.{◌>>=◌}
use tcp_and_parallel.Prelude.Tests.{◌==◌, Bool-cases, Option-cases}

-- The computation has a result, of which `P` holds.
pub record Gives {ℓ ℓ'} {S : Type ℓ} (o : Option S) (P : S → Type ℓ') : Type (ℓ ⊔ ℓ') where
  pub result : S
  pub computed : o ≡ some result
  pub holds : P result

-- `for (i = first; ...; i++)`, with `k` rounds left.
unfoldable pub loop {ℓ} : {S : Type ℓ} → (k i : ℕ) → (ℕ → S → Option S) → S → Option S
loop zero i f s = some s
loop (suc k) i f s = f i s >>= loop k (i + 1) f

module _ {ℓ ℓ'} {S : Type ℓ} where
  pub Gives-some : {P : S → Type ℓ'} (s : S) → P s → Gives (some s) P
  Gives-some s h = record { result = s; computed = refl; holds = h }

  pub Gives-weaken :
      {P Q : S → Type ℓ'} (o : Option S) → ((s : S) → P s → Q s) → Gives o P → Gives o Q
  Gives-weaken o f g = record {
    result = g.result;
    computed = g.computed;
    holds = f g.result g.holds;
  }

module _ {ℓ κ ℓ' κ'} {S : Type ℓ} {T : Type κ} where
  pub Gives->>= :
      {P : S → Type ℓ'} {Q : T → Type κ'} (m : Option S) (f : S → Option T)
      → Gives m P
      → ((s : S) → P s → Gives (f s) Q)
      → Gives (m >>= f) Q
  Gives->>= m f g k =
      let r = k g.result g.holds in
      record { result = r.result; computed = rw g.computed r.computed; holds = r.holds }

-- An invariant of the loop, which says of the round that is next.
module _ {ℓ ℓ'} {S : Type ℓ} (P : ℕ → S → Type ℓ') (f : ℕ → S → Option S) where
  pub Gives-loop :
      (k i : ℕ) (s : S)
      → P i s
      → ((j : ℕ) (s : S) → i ≤ j → j < i + k → P j s → Gives (f j s) (P (j + 1)))
      → Gives (loop k i f s) (P (i + k))
  unfolding loop
  Gives-loop zero i s h step = Gives-some s (subst (λ j. P j s) (omega arith) h)
  Gives-loop (suc k) i s h step =
      Gives->>= (f i s) (loop k (i + 1) f) (step i s (omega arith) (omega arith) h) (λ s' h'.
        subst (λ j. Gives (loop k (i + 1) f s') (P j)) (omega arith)
          (Gives-loop k (i + 1) s' h' (λ j t le lt. step j t (omega arith) (omega arith))))

  pub Gives-for :
      (k count : ℕ) (s : S)
      → count ≡ k
      → P 0 s
      → ((j : ℕ) (s : S) → j < k → P j s → Gives (f j s) (P (j + 1)))
      → Gives (loop count 0 f s) (P k)
  Gives-for k count s e h step = rw e (
      Gives-weaken (loop k 0 f s) (λ t. subst (λ j. P j t) (omega arith))
        (Gives-loop k 0 s h (λ j t from to. step j t (omega arith))))

-- A round that faults whatever the state.
module _ {ℓ} {S : Type ℓ} (f : ℕ → S → Option S) where
  pub loop-none :
      (j k i : ℕ) (s : S) → i ≤ j → j < i + k → ((s : S) → f j s ≡ none) → loop k i f s ≡ none
  unfolding loop
  loop-none j zero i s from to faults = absurd (omega arith)
  loop-none j (suc k) i s from to faults = elim (Bool-cases (i == j)) [
    | inl here ↦
        (let at : j ≡ i = ground arith in rw (subst (λ (x : ℕ). f x s ≡ none) at (faults s)))
    | inr later ↦ elim (Option-cases (f i s)) [
      | inl stopped ↦ rw stopped
      | inr (s', e) ↦ rw e (loop-none j k (i + 1) s' (ground arith) (omega arith) faults)
    ]
  ]
