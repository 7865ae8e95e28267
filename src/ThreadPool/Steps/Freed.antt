-- ===== src/ThreadPool/Steps/Freed.antt =====
-- pthreads/thr_pool.c: `thr_pool_destroy` frees the pool when no worker is left.
use tcp_and_parallel.Prelude.{ℕ, ◌≡◌, refl, some, List, [], ◌∷◌, length, arith, if_ind, subst}
use tcp_and_parallel.ThreadPool.{
  Pool, Destroyer, absent, waits_active, woken_active, waits_threads, woken_threads, finished,
  State, Run, next, disabled, fault, out_of_fuel, is_empty, thr_pool_create,
}
use tcp_and_parallel.ThreadPool.Steps.{
  destroy_threads, destroy_active, wake_destroy, destroy_on, step,
}
use tcp_and_parallel.ThreadPool.Held.{Held}
use tcp_and_parallel.ThreadPool.Steps.Reach.{Reachable, Reachable-Held}

abbrev pub NoWorker : State → Type 0
NoWorker s = (s.entering ≡ []) × (s.waiting ≡ []) × (s.lingering ≡ []) × (s.running ≡ [])

empty_of_length : (xs : List ℕ) → length xs ≡ 0 → xs ≡ []
empty_of_length [] e = refl
empty_of_length (x ∷ xs) e = let no : ⊥ = omega arith in elim no [ ]

abbrev Freed : State → Type 0
Freed t = t.destroyer ≡ finished → NoWorker t

destroy_threads-Freed : (s : State) → Held 0 0 s → Freed (destroy_threads s)
unfolding destroy_threads
destroy_threads-Freed s h e =
    let none : s.pool.nthreads ≡ 0 = ground arith in
    (
      empty_of_length s.entering (omega (arith, h.counted)),
      empty_of_length s.waiting (omega (arith, h.counted)),
      empty_of_length s.lingering (omega (arith, h.counted)),
      empty_of_length s.running (omega (arith, h.counted)),
    )

destroy_active-Freed : (s : State) → Held 0 0 s → Freed (destroy_active s)
unfolding destroy_active
destroy_active-Freed s h =
    if_ind Freed (is_empty s.pool.active) _ _ (λ none. destroy_threads-Freed s h)
      (λ some e. let no : ⊥ = ground arith in elim no [ ])

abbrev FreedAfter : Run → Type 0
FreedAfter (next s) = Freed s
FreedAfter disabled = Unit
FreedAfter fault = Unit
FreedAfter out_of_fuel = Unit

destroy_on-Freed : (d : Destroyer) (s : State) → Held 0 0 s → FreedAfter (destroy_on d s)
unfolding destroy_on
destroy_on-Freed absent s h = tt
destroy_on-Freed waits_active s h = destroy_active-Freed s h
destroy_on-Freed woken_active s h = destroy_active-Freed s h
destroy_on-Freed waits_threads s h = destroy_threads-Freed s h
destroy_on-Freed woken_threads s h = destroy_threads-Freed s h
destroy_on-Freed finished s h = tt

-- When a destroyer that has waited, in a state reached from a new pool, comes to free the pool, no
-- worker is left: none before its first lock, none idle and none in a job.
pub wake_destroy-NoWorker :
    (lo hi l : ℕ) (p : Pool) (s t : State)
    → thr_pool_create lo hi l ≡ some p
    → Reachable p s
    → step wake_destroy s ≡ next t
    → t.destroyer ≡ finished
    → NoWorker t
unfolding step
wake_destroy-NoWorker lo hi l p s t e r move =
    subst FreedAfter move (destroy_on-Freed s.destroyer s (Reachable-Held lo hi l p s e r))
