-- ===== src/Alloc/Holes.antt =====
-- minix/alloc.c: `del_slot`, `merge`, `free_mem`, `alloc_mem` and `mem_init` on the hole table, as
-- they run with `vm_paged` 0. A loop along a list takes fuel; the callers give `_NR_HOLES + 1`.

pub mod Align
pub mod Bite
pub mod Correct
pub mod Init
pub mod Insert
pub mod Pending
pub mod Merge
use tcp_and_parallel.Prelude.{
  ℕ, zero, suc, ◌+◌, ◌-◌, ◌*◌, ◌/◌, ◌%◌, ◌<◌, Bool, true, false, not, ◌&&◌, ◌||◌, Option, none,
  some, List, [], ◌∷◌, reverse, leb, ltb, ◌==◌, if◌then◌else◌, add32, sub32, u32_mod,
}
use tcp_and_parallel.Alloc.Table.{
  Ptr, Hole, Table, Config, Run, fault, panic, out_of_fuel, Cmd, pure, ◌>>=◌, ◌>>◌, get, load,
  store, set_head, set_free, set_next, is_at,
}

-- The last two lines of `del_slot` put the slot back on the free list.
pub del_slot : Ptr → ℕ → Cmd (Unit {0})
del_slot prev_ptr hp = do
  s ← get
  h ← load hp
  if is_at s.hole_head hp then set_head h.h_next else set_next prev_ptr h.h_next
  store hp (record { h_next = s.free_slots; h_base = 0; h_len = 0 })
  set_free (some hp)

-- `if (hp->h_base + hp->h_len == next_ptr->h_base)` and what it guards; says whether it held.
absorb : ℕ → ℕ → Cmd Bool
unfolding del_slot
absorb hp next_ptr = do
  h ← load hp
  n ← load next_ptr
  if add32 h.h_base h.h_len == n.h_base
      then (do
        store hp (record h { h_len = add32 h.h_len n.h_len })
        del_slot (some hp) next_ptr
        pure true)
      else pure false

-- The second half of `merge`.
merge_last : ℕ → Ptr → Cmd (Unit {0})
unfolding absorb
merge_last hp none = pure tt
merge_last hp (some next_ptr) = do absorb hp next_ptr; pure tt

merge_first : ℕ → Ptr → Cmd (Unit {0})
unfolding absorb merge_last
merge_first hp none = pure tt
merge_first hp (some next_ptr) = do
  absorbed ← absorb hp next_ptr
  let at = if absorbed then hp else next_ptr
  h ← load at
  merge_last at h.h_next

pub merge : ℕ → Cmd (Unit {0})
unfolding merge_first
merge hp = do h ← load hp; merge_first hp h.h_next

-- The insertion after `prev_ptr`.
insert_after : ℕ → Ptr → Cmd (Unit {0})
unfolding merge
insert_after new_ptr none = λ _. fault
insert_after new_ptr (some prev_ptr) = do
  p ← load prev_ptr
  n ← load new_ptr
  store new_ptr (record n { h_next = p.h_next })
  set_next (some prev_ptr) (some new_ptr)
  merge prev_ptr

-- The walk `while (hp != NULL && base > hp->h_base)`, and the insertion where it stops.
pub free_loop : ℕ → ℕ → ℕ → Ptr → Ptr → Cmd (Unit {0})
unfolding insert_after
free_loop zero base new_ptr prev_ptr hp = λ _. out_of_fuel
free_loop (suc k) base new_ptr prev_ptr none = insert_after new_ptr prev_ptr
free_loop (suc k) base new_ptr prev_ptr (some hp) = do
  h ← load hp
  if ltb h.h_base base
      then free_loop k base new_ptr (some hp) h.h_next
      else insert_after new_ptr prev_ptr

push_front : ℕ → Ptr → Cmd (Unit {0})
unfolding merge
push_front new_ptr hp = do
  n ← load new_ptr
  store new_ptr (record n { h_next = hp })
  set_head (some new_ptr)
  merge new_ptr

-- The block goes on the front if the list is empty or starts at or above it.
place : Config → ℕ → ℕ → Ptr → Cmd (Unit {0})
unfolding free_loop push_front
place c base new_ptr none = push_front new_ptr none
place c base new_ptr (some hp) = do
  h ← load hp
  if leb base h.h_base
      then push_front new_ptr (some hp)
      else free_loop (c.nr_holes + 1) base new_ptr none (some hp)

-- The new slot is taken off the free list and filled in.
take_slot : Config → ℕ → ℕ → Ptr → Cmd (Unit {0})
unfolding place
take_slot c base clicks none = λ _. panic
take_slot c base clicks (some new_ptr) = do
  n ← load new_ptr
  store new_ptr (record n { h_base = base; h_len = clicks })
  set_free n.h_next
  s ← get
  place c base new_ptr s.hole_head

pub free_mem : Config → ℕ → ℕ → Cmd (Unit {0})
unfolding take_slot
free_mem c base clicks =
    if clicks == 0 then pure tt else (do s ← get; take_slot c base clicks s.free_slots)

-- A hole that is big enough: a piece is bitten off its low end.
bite : Config → ℕ → Bool → Ptr → ℕ → Cmd ℕ
unfolding del_slot
bite c clicks clear prev_ptr hp = do
  h ← load hp
  store hp (record h { h_base = add32 h.h_base clicks; h_len = sub32 h.h_len clicks })
  if sub32 h.h_len clicks == 0 then del_slot prev_ptr hp else pure tt
  if clear
        && not (c.memset_ok (c.click_size * h.h_base % u32_mod) (c.click_size * clicks % u32_mod))
      then (λ _. panic)
      else pure h.h_base

pub alloc_loop : ℕ → Config → ℕ → Bool → Ptr → Ptr → Cmd ℕ
unfolding bite
alloc_loop zero c clicks clear prev_ptr hp = λ _. out_of_fuel
alloc_loop (suc k) c clicks clear prev_ptr none = pure c.no_mem
alloc_loop (suc k) c clicks clear prev_ptr (some hp) = do
  h ← load hp
  if leb clicks h.h_len
      then bite c clicks clear prev_ptr hp
      else alloc_loop k c clicks clear (some hp) h.h_next

-- `memflags & PAF_ALIGN64K`: the front of the block up to the boundary is given back.
unfoldable pub align : Config → ℕ → ℕ → Cmd ℕ
align c align_clicks mem =
    if align_clicks == 0 then pure mem else if mem % align_clicks == 0 then pure mem else (do
      free_mem c mem (align_clicks - mem % align_clicks)
      pure (add32 mem (align_clicks - mem % align_clicks)))

-- `align64k` and `clear` are the bits PAF_ALIGN64K and PAF_CLEAR of `memflags`.
unfoldable pub alloc_mem : Config → ℕ → (align64k clear : Bool) → Cmd ℕ
unfolding alloc_loop align
alloc_mem c clicks align64k clear = do
  let align_clicks = if align64k then 64 * 1024 / c.click_size else 0
  s ← get
  mem ← alloc_loop (c.nr_holes + 1) c (add32 clicks align_clicks) clear none s.hole_head
  if mem == c.no_mem then pure mem else align c align_clicks mem

-- `mem_init` puts every slot on the free list, and then frees the chunks from the last to the first.
pub record Memory : Type 0 where
  pub base : ℕ
  pub size : ℕ

-- The statics `mem_low` and `mem_high`, and the global `total_pages`.
pub record Extent : Type 0 where
  pub mem_low : ℕ
  pub mem_high : ℕ
  pub total_pages : ℕ

pub empty_table : Config → Table
empty_table c = record {
  hole = λ i. record {
    h_next = if i + 1 == c.nr_holes then none else some (i + 1);
    h_base = 0;
    h_len = 0;
  };
  hole_head = none;
  free_slots = some 0;
}

-- CLICK2ABS
click_to_abs : Config → ℕ → ℕ
click_to_abs c clicks = c.click_size * clicks % u32_mod

extend : Config → Bool → Memory → Extent → Extent
unfolding click_to_abs
extend c first m x =
    let from = click_to_abs c m.base in
    let to = sub32 (click_to_abs c (add32 m.base m.size)) 1 in
    record {
      mem_low = if first || ltb from x.mem_low then from else x.mem_low;
      mem_high = if first || ltb x.mem_high to then to else x.mem_high;
      total_pages = add32 x.total_pages m.size;
    }

-- Over the chunks in the order in which the loop takes them, highest index first.
free_chunks : Config → Bool → List Memory → Extent → Cmd Extent
unfolding free_mem extend
free_chunks c first [] x = pure x
free_chunks c first (m ∷ ms) x =
    if ltb 0 m.size
    then (do free_mem c m.base m.size; free_chunks c false ms (extend c first m x))
    else free_chunks c first ms x

-- `first` starts as 0.
pub mem_init : Config → List Memory → Extent → Run Extent
unfolding free_chunks empty_table
mem_init c chunks x =
    free_chunks c false (reverse chunks) (record x { total_pages = 0 }) (empty_table c)
