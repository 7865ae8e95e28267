-- ===== src/Tests/Lists.antt =====
-- Runs of the lists of memory in minix/alloc.c.
use tcp_and_parallel.Prelude.{
  ℕ, ◌+◌, ◌*◌, ◌≤◌, ◌≡◌, refl, arith, Bool, true, false, [], Gives, u32_mod,
}
use tcp_and_parallel.Alloc.Avl.{Ranges}
use tcp_and_parallel.Alloc.Pages.Spans.{page_at}
use tcp_and_parallel.Alloc.Lists.{Supply, Freed, alloc_mem_in_list}
use tcp_and_parallel.Alloc.Lists.Kept.{Yields, IsKept}
use tcp_and_parallel.Alloc.Lists.Counts.{one_if}
use tcp_and_parallel.Alloc.Lists.Collected.{Result, alloc_mem_in_list-Result}
use tcp_and_parallel.Tests.Pages.{list_avl, pages, good, plain, two_ranges}

-- Nothing is yielded.
abbrev nothing_yielded : ℕ → Supply Ranges ℕ → Freed Ranges ℕ
nothing_yielded n s = record { freed = 0; pool = s }

abbrev yielding : ℕ → ℕ → Bool
yielding y a = false

abbrev avail : ℕ → ℕ
avail a = one_if (page_at two_ranges a)

abbrev pool : Supply Ranges ℕ
pool = record { tree = two_ranges; yielded = 0 }

one_if-le : (b : Bool) → one_if b ≤ 1
one_if-le true = omega arith
one_if-le false = omega arith

yields : Yields list_avl pages nothing_yielded yielding (λ y. y)
yields = record {
  sorted = λ n s h k. h;
  same = λ n s a. refl;
  fewer = λ n s h. absurd (omega arith);
  no_more = λ n s. omega arith;
}

kept : IsKept list_avl pages nothing_yielded yielding (λ y. y) avail [] pool
kept = record { sorted = omega arith; placed = λ a. omega arith }

below_28 : (a : ℕ) → avail a ≡ 1 → (a + 1) * 0x4000 ≤ u32_mod
below_28 a h = ground arith

alloc_mem_in_list-Result_example :
    Gives
      (alloc_mem_in_list list_avl pages nothing_yielded 1
        (λ n. true)
        true
        (12 * 0x4000)
        false
        plain
        pool)
      (λ r.
        Result list_avl pages nothing_yielded yielding
          (λ y. y)
          avail
          (λ a. one_if-le (page_at two_ranges a))
          (12 * 0x4000)
          r.0
          r.1)
alloc_mem_in_list-Result_example =
    alloc_mem_in_list-Result list_avl pages nothing_yielded yielding (λ y. y) avail
      (λ a. one_if-le (page_at two_ranges a)) good yields refl refl refl (omega arith) below_28 1
      (λ n. true) 12 false plain pool (omega arith) (omega arith) kept
