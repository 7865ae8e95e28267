-- ===== src/ThreadPool/Ring.antt =====
-- pthreads/thr_pool.c: the ring of all pools, `thr_pools`, with the writes of `thr_pool_create` and
-- `thr_pool_destroy` in their order.
pub mod Restored
use tcp_and_parallel.Prelude.{ℕ, Option, none, some, ◌==◌, if◌then◌else◌, update}

-- `pool_forw` and `pool_back` of every pool, and `thr_pools`.
pub record Ring : Type 0 where
  pub forw : ℕ → ℕ
  pub back : ℕ → ℕ
  pub thr_pools : Option ℕ

insert_before : ℕ → Option ℕ → Ring → Ring
insert_before pool none r = record {
  forw = update r.forw pool pool;
  back = update r.back pool pool;
  thr_pools = some pool;
}
insert_before pool (some first) r = record r {
  forw = update (update r.forw (r.back first) pool) pool first;
  back = update (update r.back pool (r.back first)) first pool;
}

pub insert_pool : ℕ → Ring → Ring
unfolding insert_before
insert_pool pool r = insert_before pool r.thr_pools r

unlink_pool : ℕ → Ring → Ring
unlink_pool pool r =
    let forw = update r.forw (r.back pool) (r.forw pool) in
    record r { forw = forw; back = update r.back (forw pool) (r.back pool) }

-- `first` is `thr_pools` after it has been moved off the pool.
remove_from : ℕ → Option ℕ → Ring → Ring
unfolding unlink_pool
remove_from pool none r = unlink_pool pool (record r { thr_pools = none })
remove_from pool (some first) r =
    if first == pool
    then record r { thr_pools = none }
    else unlink_pool pool (record r { thr_pools = some first })

advance : ℕ → Ring → Option ℕ → Option ℕ
advance pool r none = none
advance pool r (some first) = if first == pool then some (r.forw pool) else some first

pub remove_pool : ℕ → Ring → Ring
unfolding remove_from advance
remove_pool pool r = remove_from pool (advance pool r r.thr_pools) r
