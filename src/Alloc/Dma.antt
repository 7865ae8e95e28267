-- ===== src/Alloc/Dma.antt =====
-- minix/alloc.c: the table of DMA regions, `do_adddma`, `do_deldma` and `do_getdma`. A loop over the
-- table that leaves at the first entry of a kind is `find_first`.
pub mod Found
pub mod RoundTrip
pub mod Unreleased
use tcp_and_parallel.Prelude.{
  ℕ, zero, suc, ◌+◌, Bool, true, false, not, ◌&&◌, ◌||◌, Option, none, some, ◌==◌, if◌then◌else◌,
  update,
}

-- `struct dmatab`; the flags are the bits DTF_INUSE, DTF_RELEASE_DMA and DTF_RELEASE_SEG.
pub record Dma : Type 0 where
  pub in_use : Bool
  pub release_dma : Bool
  pub release_seg : Bool
  pub proc : ℕ
  pub base : ℕ
  pub size : ℕ
  pub seg_base : ℕ
  pub seg_size : ℕ

abbrev pub nr_dma : ℕ
nr_dma = 16

-- What a message asks for, and the region that `do_getdma` writes into its message.
pub record Region : Type 0 where
  pub proc : ℕ
  pub base : ℕ
  pub size : ℕ

pub data Code : Type 0 where
  ok : Code
  einval : Code
  esrch : Code
  eagain : Code

-- The first index that passes, of `k` from `i` on.
abbrev pub find_first : (ℕ → Bool) → (k i : ℕ) → Option ℕ
find_first p zero i = none
find_first p (suc k) i = let rest = find_first p k (i + 1) in if p i then some i else rest

abbrev pub matches : (ℕ → Dma) → Region → ℕ → Bool
matches dmatab m i =
    (dmatab i).in_use
    && ((dmatab i).proc == m.proc && ((dmatab i).base == m.base && (dmatab i).size == m.size))

-- The test of the inner loop of `do_deldma` on the entry `j`. It reads the process of the entry `i`.
abbrev pub holds_segment : (ℕ → Dma) → Region → ℕ → ℕ → Bool
holds_segment dmatab m i j =
    not (j == i) && ((dmatab j).in_use && ((dmatab j).release_seg && (dmatab i).proc == m.proc))

-- The memory `M` behind `free_mem`, and the flags VMF_HAS_DMA of the processes.
pub record State (M : Type 0) : Type 0 where
  pub dmatab : ℕ → Dma
  pub has_dma : ℕ → Bool
  pub memory : M

-- `none` is a panic. `free_mem` is the one of this file, and `vm_isokendpt` finds a process.
module _ {M : Type 0} (free_mem : ℕ → ℕ → M → Option M) (vm_isokendpt : ℕ → Option ℕ) where
  add_at : ℕ → Region → Option ℕ → State M → Code × State M
  add_at i m none s = (einval, s)
  add_at i m (some proc_n) s = (
    ok,
    record s {
      has_dma = update s.has_dma proc_n true;
      dmatab = update s.dmatab i (record (s.dmatab i) {
        in_use = true;
        release_dma = false;
        release_seg = false;
        proc = m.proc;
        base = m.base;
        size = m.size;
      });
    },
  )

  add_found : Region → Option ℕ → State M → Option (Code × State M)
  unfolding add_at
  add_found m none s = none
  add_found m (some i) s = some (add_at i m (vm_isokendpt m.proc) s)

  unfoldable pub do_adddma : Region → State M → Option (Code × State M)
  unfolding add_found
  do_adddma m s = add_found m (find_first (λ i. not (s.dmatab i).in_use) nr_dma 0) s

  -- DTF_INUSE is cleared.
  clear_in_use : ℕ → Option (State M) → Option (Code × State M)
  clear_in_use i none = none
  clear_in_use i (some s) =
      some (ok, record s { dmatab = update s.dmatab i (record (s.dmatab i) { in_use = false }) })

  free_segment : ℕ → State M → Option M → Option (State M)
  free_segment i s none = none
  free_segment i s (some memory) = some (record s { memory = memory })

  -- The segment is freed if no other entry holds one.
  release : ℕ → State M → Option ℕ → Option (State M)
  unfolding free_segment
  release i s (some j) = some s
  release i s none =
      free_segment i s (free_mem (s.dmatab i).seg_base (s.dmatab i).seg_size s.memory)

  del_found : Region → Option ℕ → State M → Option (Code × State M)
  unfolding clear_in_use release
  del_found m none s = some (esrch, s)
  del_found m (some i) s = clear_in_use i (
      if (s.dmatab i).release_seg
      then release i s (find_first (holds_segment s.dmatab m i) nr_dma 0)
      else some s)

  pub do_deldma : Region → State M → Option (Code × State M)
  unfolding del_found
  do_deldma m s = del_found m (find_first (matches s.dmatab m) nr_dma 0) s

  get_found : (ℕ → Dma) → Option ℕ → Code × Option Region
  get_found dmatab none = (eagain, none)
  get_found dmatab (some i) =
      (ok, some (record { proc = (dmatab i).proc; base = (dmatab i).base; size = (dmatab i).size }))

  pub do_getdma : State M → Code × Option Region
  unfolding get_found
  do_getdma s =
      get_found s.dmatab
        (find_first (λ i. (s.dmatab i).in_use && (s.dmatab i).release_dma) nr_dma 0)
