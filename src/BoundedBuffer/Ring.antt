-- ===== src/BoundedBuffer/Ring.antt =====
-- pthreads/pc-9.c: the ring buffer as a list.
use tcp_and_parallel.Prelude.{
  ℕ, zero, suc, ◌+◌, ◌%◌, ◌≤◌, ◌<◌, ◌≡◌, refl, sym, subst, ◌∙◌, Bool, true, false, List, [], ◌∷◌,
  ◌++◌, ◌==◌, if◌then◌else◌, update, length, length-append, arith, ==_self,
}
use tcp_and_parallel.BoundedBuffer.{Queue, next_place, queue_init, queue_add, queue_del}

-- From the place `p` on, around the ring, the buffer holds these values.
abbrev pub Slots : (ℕ → ℕ) → ℕ → List ℕ → Type 0
Slots buf p [] = Unit
Slots buf p (x ∷ xs) = (buf (p % 10) ≡ x) × Slots buf (p + 1) xs

pub record Holds (q : Queue) (xs : List ℕ) : Type 0 where
  pub head : q.head < 10
  pub tail : q.tail ≡ (q.head + length xs) % 10
  pub few : length xs ≤ 10
  pub full : q.full ≡ (length xs == 10)
  pub empty : q.empty ≡ (length xs == 0)
  pub slots : Slots q.buf q.head xs

Slots-update :
    (buf : ℕ → ℕ) (p k v : ℕ) (xs : List ℕ)
    → length xs ≤ k
    → k < 10
    → Slots buf p xs
    → Slots (update buf ((p + k) % 10) v) p xs
Slots-update buf p k v [] le lt h = tt
Slots-update buf p zero v (x ∷ xs) le lt h = absurd (omega arith)
Slots-update buf p (suc k) v (x ∷ xs) le lt h =
    let other : (p + suc k) % 10 == p % 10 ≡ false = ground arith in
    let same_place : (p + 1 + k) % 10 ≡ (p + suc k) % 10 = omega arith in
    (
      rw other h.0,
      subst (λ (t : ℕ). Slots (update buf t v) (p + 1) xs) same_place
          (Slots-update buf (p + 1) k v xs (omega arith) (omega arith) h.1),
    )

Slots-snoc :
    (buf : ℕ → ℕ) (p v : ℕ) (xs : List ℕ)
    → Slots buf p xs
    → buf ((p + length xs) % 10) ≡ v
    → Slots buf p (xs ++ v ∷ [])
Slots-snoc buf p v [] h e =
    let at : (p + 0) % 10 ≡ p % 10 = omega arith in (subst (λ (t : ℕ). buf t ≡ v) at e, tt)
Slots-snoc buf p v (x ∷ xs) h e =
    let at : (p + suc (length xs)) % 10 ≡ (p + 1 + length xs) % 10 = omega arith in
    (h.0, Slots-snoc buf (p + 1) v xs h.1 (subst (λ (t : ℕ). buf t ≡ v) at e))

-- Only the place around the ring matters.
Slots-wrap :
    (buf : ℕ → ℕ) (p q : ℕ) (xs : List ℕ) → p % 10 ≡ q % 10 → Slots buf p xs → Slots buf q xs
Slots-wrap buf p q [] e h = tt
Slots-wrap buf p q (x ∷ xs) e h =
    (subst (λ (t : ℕ). buf t ≡ x) e h.0, Slots-wrap buf (p + 1) (q + 1) xs (omega arith) h.1)

pub queue_init-Holds : (buf : ℕ → ℕ) → Holds (queue_init buf) []
unfolding queue_init
queue_init-Holds buf = record {
  head = omega arith;
  tail = refl;
  few = omega arith;
  full = refl;
  empty = refl;
  slots = tt;
}

next_place_lem : (t h n : ℕ) → t ≡ (h + n) % 10 → next_place t ≡ (h + (n + 1)) % 10
next_place_lem t h n e = ground arith

-- The tail meets the head when there are ten.
full_lem :
    (full : Bool) (t h n : ℕ)
    → h < 10
    → n < 10
    → full ≡ (n == 10)
    → t ≡ (h + (n + 1)) % 10
    → (if t == h then true else full) ≡ (n + 1 == 10)
full_lem full t h n lt room e at = ground arith

-- The head meets the tail when there are none.
empty_lem :
    (empty : Bool) (p h t n : ℕ)
    → n < 10
    → empty ≡ false
    → t ≡ (p + suc n) % 10
    → h ≡ (p + 1) % 10
    → (if h == t then true else empty) ≡ (n == 0)
empty_lem empty p h t n few e at at' = ground arith

pub queue_add-Holds :
    (q : Queue) (v : ℕ) (xs : List ℕ)
    → Holds q xs
    → length xs < 10
    → Holds (queue_add q v) (xs ++ v ∷ [])
unfolding queue_add
queue_add-Holds q v xs h room =
    let count : length (xs ++ v ∷ []) ≡ length xs + 1 = length-append xs (v ∷ []) in
    record {
      head = h.head;
      tail = rw count (next_place_lem q.tail q.head (length xs) h.tail);
      few = omega (arith, count);
      full = rw count (
          full_lem q.full (next_place q.tail) q.head (length xs) h.head room h.full
            (next_place_lem q.tail q.head (length xs) h.tail));
      empty = ground (arith, count);
      slots =
          let at : (q.head + length xs) % 10 ≡ q.tail = sym h.tail in
          Slots-snoc (update q.buf q.tail v) q.head v xs
            (subst (λ (t : ℕ). Slots (update q.buf t v) q.head xs) at
              (Slots-update q.buf q.head (length xs) v xs (omega arith) room h.slots))
            (rw (at, ==_self q.tail));
    }

pub queue_del-Holds :
    (q : Queue) (x : ℕ) (xs : List ℕ)
    → Holds q (x ∷ xs)
    → ((queue_del q).0 ≡ x) × Holds (queue_del q).1 xs
unfolding queue_del
queue_del-Holds q x xs h =
    let now : q.head % 10 ≡ q.head = omega (arith, h.head) in
    let next : next_place q.head ≡ (q.head + 1) % 10 =
      next_place_lem q.head q.head 0 (omega (arith, h.head)) in
    (
      subst (λ (t : ℕ). q.buf t ≡ x) now h.slots.0,
      record {
        head = omega (arith, next);
        tail = h.tail ∙ omega (arith, next);
        few = omega (arith, h.few);
        full = ground (arith, h.few);
        empty =
            empty_lem q.empty q.head (next_place q.head) q.tail (length xs) (omega (arith, h.few))
              (ground (arith, h.empty)) h.tail next;
        slots =
            Slots-wrap q.buf (q.head + 1) (next_place q.head) xs (omega (arith, next)) h.slots.1;
      },
    )
