-- ===== src/Tests/Pages.antt =====
-- minix/alloc.c with `vm_paged`, over a tree that is a list.
use tcp_and_parallel.Prelude.{ℕ, ◌≡◌, refl, arith, true, false, some, [], ◌∷◌}
use tcp_and_parallel.Alloc.Avl.{
  PageRange, Ranges, find_at, insert_sorted, remove_at, replace_at, AddrAvl,
}
use tcp_and_parallel.Alloc.Pages.{Flags, PageConfig, Got, alloc_pages, free_pages}
use tcp_and_parallel.Alloc.Pages.Take.{Outcome, alloc_pages-Outcome}
use tcp_and_parallel.Alloc.Pages.Give.{Given, free_pages-Given}
use tcp_and_parallel.Alloc.Holes
use tcp_and_parallel.Alloc.Vm
use tcp_and_parallel.Alloc.Vm.{Vm, lift}
use tcp_and_parallel.Alloc.Vm.Unpaged.{Vm-holes}
use tcp_and_parallel.Alloc.Vm.Paged.{Retried, alloc_mem-Retried}
use tcp_and_parallel.Tests.Holes.{config, table}

abbrev pub list_avl : AddrAvl
list_avl = record {
  Tree = Ranges;
  empty = [];
  ranges = λ t. t;
  search = find_at;
  insert = insert_sorted;
  remove = remove_at;
  write = replace_at;
  ranges-empty = refl;
  search_lem = λ a t h. refl;
  ranges-insert = λ r t h e. refl;
  ranges-remove = λ a t h. refl;
  ranges-write = λ a r t h. refl;
}

abbrev pub pages : PageConfig
pages = record { click_size = 0x4000; page_size = 0x4000; no_mem = 0; memset_ok = λ a n. true }

pub good : (a n : ℕ) → pages.memset_ok a n ≡ true
good a n = refl

abbrev range : ℕ → ℕ → PageRange
range a n = record { addr = a; size = n }

abbrev pub two_ranges : Ranges
two_ranges = range 10 5 ∷ range 20 8 ∷ []

abbrev pub plain : Flags
plain = record {
  align64k = false;
  lower16mb = false;
  lower1mb = false;
  firstblock = false;
  clear = true;
}

abbrev low : Flags
low = record {
  align64k = false;
  lower16mb = true;
  lower1mb = false;
  firstblock = false;
  clear = false;
}

-- 16 MB are 1024 pages here; with PAF_LOWER16MB the block of pages 1096 to 1099 is taken.
above_16mb :
    alloc_pages list_avl pages 4 low true (range 1000 100 ∷ [])
    ≡ some (record { mem = 1096; len = some 4 }, range 1000 96 ∷ [])
unfolding alloc_pages
above_16mb = refl

alloc_pages-Outcome_example :
    (r : Got × Ranges) × (alloc_pages list_avl pages 6 plain true two_ranges ≡ some r)
    × Outcome list_avl pages good plain 6 true two_ranges r.0 r.1
alloc_pages-Outcome_example =
    alloc_pages-Outcome list_avl pages good plain 6 true two_ranges refl (omega arith)

-- The last range is tried first, and the block comes off its high end.
takes_high_end :
    alloc_pages list_avl pages 6 plain true two_ranges
    ≡ some (record { mem = 22; len = some 6 }, range 10 5 ∷ range 20 2 ∷ [])
unfolding alloc_pages
takes_high_end = refl

free_pages-Given_example :
    (u : Ranges) × (free_pages list_avl true 15 5 two_ranges ≡ some u)
    × Given list_avl 15 5 two_ranges u
free_pages-Given_example =
    free_pages-Given list_avl 15 5 two_ranges (omega arith) (omega arith) (omega arith)

abbrev unpaged : Vm Ranges
unpaged = record { vm_paged = false; table = table; tree = [] }

abbrev paged : Vm Ranges
paged = record { vm_paged = true; table = table; tree = two_ranges }

abbrev no_yield : ℕ → Ranges → Ranges
no_yield n t = t

entry_points_unpaged :
    (Vm.free_mem list_avl config pages no_yield true 15 5 unpaged
      ≡ lift unpaged (Holes.free_mem config 15 5 table))
    × (Vm.alloc_mem list_avl config pages no_yield true 6 plain unpaged
        ≡ lift unpaged (Holes.alloc_mem config 6 false true table))
entry_points_unpaged = Vm-holes list_avl config pages no_yield true 15 5 6 plain unpaged refl

-- There is room for 9 pages only in what is yielded.
abbrev with_yielded : ℕ → Ranges → Ranges
with_yielded n t = range 10 5 ∷ range 40 20 ∷ []

alloc_mem-Retried_example :
    (r : Got × Ranges) × (Vm.alloc_mem list_avl config pages with_yielded true 9 plain paged
      ≡ some (r.0.mem, record paged { tree = r.1 }))
    × Retried list_avl config pages with_yielded good
        (λ n t s. omega arith)
        9
        plain
        (omega arith)
        (omega arith)
        refl
        two_ranges
        r
alloc_mem-Retried_example =
    alloc_mem-Retried list_avl config pages with_yielded good (λ n t s. omega arith) 9 plain
      (omega arith) (omega arith) refl true paged refl refl (omega arith) refl refl
