-- ===== src/Alloc/Lists/Bytes.antt =====
-- minix/alloc.c: the bytes and pages of a block of a list.
use native.Mathlib.Nat.{zero-div, mod-eq_of_lt, add-mul, mul-le-mul_right}
use tcp_and_parallel.Prelude.{
  ℕ, zero, suc, ◌+◌, ◌-◌, ◌*◌, ◌/◌, ◌%◌, ◌≤◌, ◌<◌, ◌≡◌, ap, subst, Bool, true, false, ◌&&◌, ltb,
  ◌==◌, u32_mod, arith,
}
use tcp_and_parallel.Alloc.Lists.{Memlist}
use tcp_and_parallel.Alloc.Lists.Counts.{one_if}

-- The bytes of whole pages below the end of the address space.
pub scaled : (a n p : ℕ) → 0 < p → 0 < n → (a + n) * p ≤ u32_mod → (a * p % u32_mod ≡ a * p)
scaled a n p pos some_pages le =
    let least : 1 * p ≤ n * p = mul-le-mul_right p some_pages in
    mod-eq_of_lt (omega (arith, add-mul a n p, least, le, pos))

pub whole_bytes : (x y : ℕ) → 0 < x → y ≡ 0 → (ltb 0 x && y == 0) ≡ true
whole_bytes x y h e = ground arith

pub product_pos : (m p : ℕ) → 0 < p → 0 < m → 0 < m * p
product_pos m p pos some_pages =
    let least : 1 * p ≤ m * p = mul-le-mul_right p some_pages in omega (arith, least, pos)

pub pos_of_div : (n p : ℕ) → 0 < n / p → 0 < n
pos_of_div zero p h = absurd (omega (arith, rw (zero-div p) at h))
pos_of_div (suc n) p h = omega arith

pub all_three : (x y : ℕ) (b : Bool) → 0 < x → 0 < y → b ≡ true → (ltb 0 x && ltb 0 y && b) ≡ true
all_three x y true h k e = ground arith
all_three x y false h k e = absurd (ground arith)

-- A page of the block is one of those there are.
pub one_there : (w : Bool) (x t v : ℕ) → x + (one_if w + t) ≡ v → v ≤ 1 → w ≡ true → v ≡ 1
one_there true x t v e le h = omega arith
one_there false x t v e le h = absurd (ground arith)

-- A block as `alloc_mem_in_list` enters it.
abbrev pub entry : ℕ → ℕ → ℕ → Memlist
entry p mem n = record { phys = mem * p % u32_mod; length = n * p % u32_mod }

pub entry_lem :
    (p mem n : ℕ)
    → 0 < p
    → 0 < mem
    → 0 < n
    → (mem + n) * p ≤ u32_mod
    → entry p mem n ≡ record { phys = mem * p; length = n * p }
entry_lem p mem n pos some_mem some_pages le =
    let swapped : (n + mem) * p ≤ u32_mod = subst (λ (x : ℕ). x * p ≤ u32_mod) (omega arith) le in
    rw (scaled mem n p pos some_pages le, scaled n mem p pos some_mem swapped)

-- The bytes in the list and those that are missing.
pub bytes_left : (t m n k p : ℕ) → k ≤ n → m ≡ k * p → m + t + (n - k) * p ≡ t + n * p
bytes_left t m n k p le e =
    let parts : (n - k + k) * p ≡ (n - k) * p + k * p = add-mul (n - k) k p in
    let all : n * p ≡ (n - k + k) * p = ap (λ (x : ℕ). x * p) (omega arith) in
    omega (arith, e, parts, all)

pub bytes_done : (t m n k p : ℕ) → k ≤ n → ltb 0 (n - k) ≡ false → m ≡ k * p → m + t ≡ t + n * p
bytes_done t m n k p le done e =
    let all : k ≡ n = ground arith in omega (arith, e, ap (λ (x : ℕ). x * p) all)
