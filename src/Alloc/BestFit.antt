-- ===== src/Alloc/BestFit.antt =====
-- minix/3.1.7-bestfit-alloc.c: `alloc_mem` with the best fit in place of the first, for `vm_paged` 0.
pub mod Picked
use tcp_and_parallel.Prelude.{
  ℕ, zero, suc, ◌+◌, ◌-◌, ◌*◌, ◌/◌, Bool, ◌&&◌, ◌||◌, none, some, ltb, ◌==◌, if◌then◌else◌, update,
  u32_mod, add32, sub32,
}
use tcp_and_parallel.Alloc.Table.{
  Ptr, Hole, Table, Config, Cmd, fault, out_of_fuel, pure, ◌>>=◌, ◌>>◌, get, load, store,
}

-- `remainder` is an `int`, here its 32 bits; it starts at -1.
abbrev pub no_remainder : ℕ
no_remainder = u32_mod - 1

-- What is less than this is not negative as an `int`.
abbrev pub int_half : ℕ
int_half = 2147483648

-- The loop over all holes. What it leaves is `remainder` and `best_ptr`, which is not set at first.
unfoldable pub best_loop : ℕ → ℕ → ℕ → Ptr → Ptr → Cmd (ℕ × Ptr)
best_loop zero clicks remainder best_ptr hp = λ _. out_of_fuel
best_loop (suc k) clicks remainder best_ptr none = pure (remainder, best_ptr)
best_loop (suc k) clicks remainder best_ptr (some hp) = do
  h ← load hp
  if h.h_len == clicks
      then pure (0, some hp)
      else if ltb clicks h.h_len && (ltb (h.h_len - clicks) remainder || remainder == no_remainder)
      then best_loop k clicks (h.h_len - clicks) (some hp) h.h_next
      else best_loop k clicks remainder best_ptr h.h_next

-- Where `remainder` is negative the code goes on with `best_ptr` or `old_base` that is not set.
unfoldable pub use_best : ℕ → ℕ × Ptr → Cmd ℕ
use_best clicks (remainder, none) = λ _. fault
use_best clicks (remainder, some best_ptr) =
    if ltb remainder (int_half)
    then (do
      h ← load best_ptr
      store best_ptr (record h { h_base = add32 h.h_base clicks; h_len = sub32 h.h_len clicks })
      pure h.h_base)
    else (λ _. fault)

unfoldable pub alloc_mem : Config → ℕ → (align64k : Bool) → Cmd ℕ
unfolding best_loop use_best
alloc_mem c clicks align64k = do
  let align_clicks = if align64k then 64 * 1024 / c.click_size else 0
  s ← get
  best ← best_loop (c.nr_holes + 1) (add32 clicks align_clicks) no_remainder none s.hole_head
  use_best (add32 clicks align_clicks) best
