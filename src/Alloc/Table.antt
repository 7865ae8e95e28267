-- ===== src/Alloc/Table.antt =====
-- minix/alloc.c: the hole table, its two linked lists of slots, and commands over it.
use tcp_and_parallel.Prelude.{ℕ, Bool, false, Option, none, some, ◌==◌, update}

-- A `struct hole *`: `none` is NULL, `some i` is `&hole[i]`.
abbrev pub Ptr : Type 0
Ptr = Option ℕ

pub record Hole : Type 0 where
  pub h_next : Ptr
  pub h_base : ℕ
  pub h_len : ℕ

-- The file's static variables.
pub record Table : Type 0 where
  pub hole : ℕ → Hole
  pub hole_head : Ptr
  pub free_slots : Ptr

-- What comes from outside the repository: `_NR_HOLES` and `CLICK_SIZE` of MINIX's headers, its
-- value NO_MEM, and whether the kernel call `sys_memset` on an address and a length returns OK.
pub record Config : Type 0 where
  pub nr_holes : ℕ
  pub click_size : ℕ
  pub no_mem : ℕ
  pub memset_ok : ℕ → ℕ → Bool

-- A fault is a dereference of NULL; `panic` is the call of that name.
pub data Run (A : Type 0) : Type 0 where
  ok : A → Table → Run A
  fault : Run A
  panic : Run A
  out_of_fuel : Run A

abbrev pub Cmd : Type 0 → Type 0
Cmd A = Table → Run A

abbrev pub pure : {A : Type 0} → A → Cmd A
pure = ok

module _ {A B : Type 0} where
  abbrev pub and_then : Run A → (A → Cmd B) → Run B
  and_then (ok a s) k = k a s
  and_then fault k = fault
  and_then panic k = panic
  and_then out_of_fuel k = out_of_fuel

  infixl 5 ◌>>=◌ ◌>>◌
  abbrev pub ◌>>=◌ : Cmd A → (A → Cmd B) → Cmd B
  m >>= k = λ s. and_then (m s) k

  abbrev pub ◌>>◌ : Cmd A → Cmd B → Cmd B
  m >> n = m >>= λ _. n

abbrev pub get : Cmd Table
get s = ok s s

-- `*hp` for `hp = &hole[i]`
abbrev pub load : ℕ → Cmd Hole
load i s = ok (s.hole i) s

abbrev pub store : ℕ → Hole → Cmd (Unit {0})
store i h s = ok tt (record s { hole = update s.hole i h })

abbrev pub set_head : Ptr → Cmd (Unit {0})
set_head p s = ok tt (record s { hole_head = p })

abbrev pub set_free : Ptr → Cmd (Unit {0})
set_free p s = ok tt (record s { free_slots = p })

-- `p->h_next = q`, a fault at NULL
abbrev pub set_next : Ptr → Ptr → Cmd (Unit {0})
set_next none q = λ _. fault
set_next (some i) q = do h ← load i; store i (record h { h_next = q })

-- `p == &hole[i]`
abbrev pub is_at : Ptr → ℕ → Bool
is_at none i = false
is_at (some j) i = j == i
