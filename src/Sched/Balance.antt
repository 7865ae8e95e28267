-- ===== src/Sched/Balance.antt =====
-- minix/schedule.c: `balance_queues`.
use tcp_and_parallel.Prelude.{
  ℕ, zero, suc, ◌+◌, ◌-◌, ◌≤◌, ◌<◌, ◌≡◌, refl, ap, ◌∙◌, inl, inr, true, false, ◌&&◌, List, [],
  arith, ltb, leb, ◌==◌, if◌then◌else◌, update, Bool-cases, eq_of_==,
}
use tcp_and_parallel.Sched.{
  Env, Procs, Schedproc, Call, raised, balance_loop, time_slice_for, balance_queues,
  default_user_time_slice, secondary_user_time_slice,
}

module _ (e : Env) where
  open e use {Nice}

  balance_loop-slots :
      (k i : ℕ) (procs : Procs Nice) (n : ℕ) (calls : List Call) (j : ℕ)
      → (balance_loop e k i procs n calls).1 j
        ≡ (if leb i j && ltb j (i + k) then raised e (procs j) else procs j)
  unfolding balance_loop
  balance_loop-slots zero i procs n calls j =
      let none_left : (leb i j && ltb j (i + 0)) ≡ false = ground arith in rw none_left
  balance_loop-slots (suc k) i procs n calls j = elim (Bool-cases (i == j)) [
    | inl here ↦
        let same : i ≡ j = eq_of_== i j here in
        let past : (leb (i + 1) j && ltb j (i + 1 + k)) ≡ false = ground arith in
        let first : (leb i j && ltb j (i + suc k)) ≡ true = ground arith in
        rw
          (
            balance_loop-slots k (i + 1) (update procs i (raised e (procs i))) _ _ j,
            past,
            first,
            here,
          )
          (ap (λ (m : ℕ). raised e (procs m)) same)
    | inr other ↦
        let next : (leb (i + 1) j && ltb j (i + 1 + k)) ≡ (leb i j && ltb j (i + suc k)) =
          ground arith in
        rw (balance_loop-slots k (i + 1) (update procs i (raised e (procs i))) _ _ j, next, other)
  ]

  -- How many of the slots from `i`, `k` of them, are in use.
  abbrev pub count_in_use : ℕ → ℕ → Procs Nice → ℕ
  count_in_use zero i procs = 0
  count_in_use (suc k) i procs = (if (procs i).in_use then 1 else 0) + count_in_use k (i + 1) procs

  count_in_use-update :
      (k i j : ℕ) (procs : Procs Nice) (r : Schedproc Nice)
      → j < i
      → count_in_use k i (update procs j r) ≡ count_in_use k i procs
  count_in_use-update zero i j procs r h = refl
  count_in_use-update (suc k) i j procs r h =
      let ne : (j == i) ≡ false = ground arith in
      rw (ne, count_in_use-update k (i + 1) j procs r (omega arith))

  balance_loop-count :
      (k i : ℕ) (procs : Procs Nice) (n : ℕ) (calls : List Call)
      → (balance_loop e k i procs n calls).0 ≡ n + count_in_use k i procs
  unfolding balance_loop
  balance_loop-count zero i procs n calls = omega arith
  balance_loop-count (suc k) i procs n calls =
      rw
        (
          balance_loop-count k (i + 1) (update procs i (raised e (procs i))) _ _,
          count_in_use-update k (i + 1) i procs (raised e (procs i)) (omega arith),
        )
        (ground arith)

  pub slots-raised :
      (procs : Procs Nice) (j : ℕ)
      → (balance_queues e procs).1 j ≡ (if ltb j e.nr_procs then raised e (procs j) else procs j)
  unfolding balance_queues
  slots-raised procs j =
      let all : (leb 0 j && ltb j (0 + e.nr_procs)) ≡ ltb j e.nr_procs = ground arith in
      balance_loop-slots e.nr_procs 0 procs 0 [] j ∙ (rw all)

  -- One up, where the process is in use and below its best queue.
  abbrev pub one_up : Schedproc Nice → Schedproc Nice
  one_up r =
      if r.in_use
      then (if ltb r.max_priority r.priority then record r { priority = r.priority - 1 } else r)
      else r

  raised-one_up : (r : Schedproc Nice) → raised e r ≡ one_up r
  unfolding raised
  raised-one_up r = elim (Bool-cases r.in_use) [ inl u ↦ rw u refl | inr u ↦ rw u refl ]

  -- In one round the priority number of every process in use whose number is above that of its best
  -- queue falls by exactly one, so that it goes up by one queue, and no other slot and no other field
  -- changes; the new time slice is 150 for 15 to 74 processes in use, and 300 otherwise.
  pub balance_queues_lem :
      (procs : Procs Nice)
      → ((j : ℕ)
          → (balance_queues e procs).1 j ≡ (if ltb j e.nr_procs then one_up (procs j) else procs j))
        × ((balance_queues e procs).0 ≡ (
            let n = count_in_use e.nr_procs 0 procs in if leb 15 n && ltb n 75 then 150 else 300))
  unfolding balance_queues time_slice_for default_user_time_slice secondary_user_time_slice
  balance_queues_lem procs = (
    (λ j.
        slots-raised procs j
        ∙ ap (λ (r : Schedproc Nice). if ltb j e.nr_procs then r else procs j)
            (raised-one_up (procs j))),
    rw (balance_loop-count e.nr_procs 0 procs 0 []) (ground arith),
  )

  abbrev pub rounds : ℕ → Procs Nice → Procs Nice
  rounds zero procs = procs
  rounds (suc k) procs = rounds k (balance_queues e procs).1

  raised_fields :
      (r : Schedproc Nice)
      → r.in_use ≡ true
      → ((raised e r).in_use ≡ true)
        × ((raised e r).max_priority ≡ r.max_priority)
        × ((raised e r).priority
            ≡ (if ltb r.max_priority r.priority then r.priority - 1 else r.priority))
  unfolding raised
  raised_fields r u = (ground arith, ground arith, ground arith)

  -- After as many rounds as its queue is below its best one, with no quantum used up in between, a
  -- process in use is back in its best queue; more rounds do not take it further.
  pub rounds-priority :
      (k j : ℕ) (procs : Procs Nice)
      → j < e.nr_procs
      → (procs j).in_use ≡ true
      → (procs j).max_priority ≤ (procs j).priority
      → (procs j).priority - (procs j).max_priority ≤ k
      → (rounds k procs j).priority ≡ (procs j).max_priority
  rounds-priority zero j procs below u le h = omega arith
  rounds-priority (suc k) j procs below u le h =
      let lt : ltb j e.nr_procs ≡ true = ground arith in
      let next : (balance_queues e procs).1 j ≡ raised e (procs j) =
        slots-raised procs j ∙ (rw lt) in
      let f = raised_fields (procs j) u in
      let best : ((balance_queues e procs).1 j).max_priority ≡ (procs j).max_priority =
        ap (λ (r : Schedproc Nice). r.max_priority) next ∙ f.1 in
      let level : ((balance_queues e procs).1 j).priority ≡ (
          if ltb (procs j).max_priority (procs j).priority
          then (procs j).priority - 1
          else (procs j).priority) =
        ap (λ (r : Schedproc Nice). r.priority) next ∙ f.2 in
      rounds-priority k j (balance_queues e procs).1 below
        (ap (λ (r : Schedproc Nice). r.in_use) next ∙ f.0) (ground arith) (ground arith)
      ∙ best
