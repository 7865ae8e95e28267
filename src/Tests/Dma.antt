-- ===== src/Tests/Dma.antt =====
-- Runs of the table of DMA regions of minix/alloc.c.
use tcp_and_parallel.Prelude.{
  ℕ, ◌+◌, true, false, Option, none, some, ◌≡◌, ◌≢◌, refl, ◌<◌, arith, update,
}
use tcp_and_parallel.Alloc.Dma.{
  Dma, Region, ok, eagain, State, do_getdma, nr_dma, matches, do_adddma, do_deldma,
}
use tcp_and_parallel.Alloc.Dma.Unreleased.{Served, here, after, add, Served-NothingFreed}
use tcp_and_parallel.Alloc.Dma.RoundTrip.{TakenBack, do_adddma-do_deldma}

-- No memory; process `n` is in slot `n`.
abbrev free : ℕ → ℕ → ℕ → Option ℕ
free base size m = some (m + size)

abbrev processes : ℕ → Option ℕ
processes n = some n

abbrev entry : Dma
entry = record {
  in_use = false;
  release_dma = false;
  release_seg = true;
  proc = 0;
  base = 0;
  size = 0;
  seg_base = 0;
  seg_size = 0;
}

abbrev region : Region
region = record { proc = 3; base = 4096; size = 512 }

abbrev before : State ℕ
before = record {
  dmatab = update (λ i. entry) 0 (record entry { in_use = true; proc = 2 });
  has_dma = λ i. false;
  memory = 0;
}

abbrev entered : State ℕ
entered = record before {
  dmatab =
      update before.dmatab 1
        (record entry { in_use = true; release_seg = false; proc = 3; base = 4096; size = 512 });
  has_dma = update before.has_dma 3 true;
}

entered-step : do_adddma free processes region before ≡ some (ok, entered)
unfolding do_adddma
entered-step = refl

new : (j : ℕ) → j < nr_dma → matches before.dmatab region j ≡ false
new j lt = ground arith

do_adddma-do_deldma_example :
    TakenBack free processes before (do_deldma free processes region entered)
do_adddma-do_deldma_example =
    do_adddma-do_deldma free processes region before entered new entered-step

abbrev unused : Dma
unused = record entry { release_seg = false }

abbrev at_start : State ℕ
at_start = record { dmatab = λ i. unused; has_dma = λ i. false; memory = 0 }

abbrev with_region : State ℕ
with_region = record {
  dmatab =
      update at_start.dmatab 0 (record unused { in_use = true; proc = 3; base = 4096; size = 512 });
  has_dma = update at_start.has_dma 3 true;
  memory = 0;
}

region-Served : Served free processes at_start with_region
unfolding do_adddma
region-Served = after at_start with_region (add region) ok here refl

Served-NothingFreed_example :
    (with_region.memory ≡ at_start.memory)
    × (do_getdma free processes with_region ≡ (eagain, none))
    × (do_deldma free processes region with_region ≢ none)
Served-NothingFreed_example =
    Served-NothingFreed free processes at_start with_region region (λ i. (refl, refl)) region-Served
