-- ===== src/Sched/Nice.antt =====
-- minix/schedule.c: `do_nice` takes a change back that the kernel refuses.
use tcp_and_parallel.Prelude.{
  ℕ, ◌≡◌, ◌≢◌, refl, ap, ◌⊎◌, inl, inr, [], ◌∷◌, ◌==◌, update, Bool-cases, ==_self, ==_of_ne,
  eq_of_==,
}
use tcp_and_parallel.Sched.{
  Env, Code, ok, error, Lookup, slot, bad, Procs, Schedproc, Reply, Request, schedule_process,
  roll_back, nice_with, nice_at, do_nice,
}

module _ (e : Env) where
  open e use {Nice}

  -- A refusal leaves every slot as it was.
  pub record Refused (procs : Procs Nice) (r : Reply Nice) : Type 0 where
    pub number : ℕ
    pub code : r.code ≡ error number
    pub same : (i : ℕ) → r.procs i ≡ procs i

  -- On success the process is in its new best queue, the kernel has been told so, and the other
  -- slots are as they were.
  pub record Accepted (m : Request Nice) (procs : Procs Nice) (r : Reply Nice) : Type 0 where
    pub n : ℕ
    pub q : ℕ
    pub target : e.isokendpt procs m.endpoint ≡ slot n
    pub queue : e.nice_to_priority m.nice ≡ slot q
    pub code : r.code ≡ ok
    pub new : r.procs n ≡ record (procs n) { max_priority = q; priority = q; nice = m.nice }
    pub others : (i : ℕ) → n ≢ i → r.procs i ≡ procs i
    pub told :
        r.calls
        ≡ record { endpoint = (procs n).endpoint; priority = q; time_slice = (procs n).time_slice }
          ∷ []

  restored :
      (procs : Procs Nice) (n : ℕ) (q : ℕ) (v : Nice) (i : ℕ)
      → update
          (update procs n (record (procs n) { max_priority = q; priority = q; nice = v }))
          n
          (record (update procs n
            (record (procs n) { max_priority = q; priority = q; nice = v })
            n) {
              priority = (procs n).priority;
              max_priority = (procs n).max_priority;
              nice = (procs n).nice;
            })
          i
        ≡ procs i
  restored procs n q v i = elim (Bool-cases (n == i)) [
    | inl here ↦ rw (here, ==_self n) (ap procs (eq_of_== n i here))
    | inr other ↦ rw (other)
  ]

  roll_back-Outcome :
      (m : Request Nice) (procs : Procs Nice) (n q : ℕ) (c : Code)
      → e.isokendpt procs m.endpoint ≡ slot n
      → e.nice_to_priority m.nice ≡ slot q
      → let rmp : Schedproc Nice = record (procs n) {
        max_priority = q;
        priority = q;
        nice = m.nice;
      } in
        let r : Reply Nice =
          roll_back e n (procs n) c (update procs n rmp) ((schedule_process e rmp).1 ∷ []) in
        Refused procs r ⊎ Accepted m procs r
  unfolding roll_back schedule_process
  roll_back-Outcome m procs n q ok t u = inr (record {
    n = n;
    q = q;
    target = t;
    queue = u;
    code = refl;
    new = rw (==_self n) refl;
    others = λ i h. rw (==_of_ne n i h) refl;
    told = refl;
  })
  roll_back-Outcome m procs n q (error c) t u =
      inl (record { number = c; code = refl; same = restored procs n q m.nice })

  nice_with-Outcome :
      (m : Request Nice) (procs : Procs Nice) (n : ℕ) (l : Lookup)
      → e.isokendpt procs m.endpoint ≡ slot n
      → e.nice_to_priority m.nice ≡ l
      → Refused procs (nice_with e n m.nice procs l)
        ⊎ Accepted m procs (nice_with e n m.nice procs l)
  unfolding nice_with schedule_process
  nice_with-Outcome m procs n (bad c) t u =
      inl (record { number = c; code = refl; same = λ i. refl })
  nice_with-Outcome m procs n (slot q) t u =
      roll_back-Outcome m procs n q (e.sys_schedule (procs n).endpoint q (procs n).time_slice) t u

  nice_at-Outcome :
      (m : Request Nice) (procs : Procs Nice) (l : Lookup)
      → e.isokendpt procs m.endpoint ≡ l
      → Refused procs (nice_at e m.nice procs l) ⊎ Accepted m procs (nice_at e m.nice procs l)
  unfolding nice_at
  nice_at-Outcome m procs (bad c) t =
      inl (record { number = e.ebadsrcdst; code = refl; same = λ i. refl })
  nice_at-Outcome m procs (slot n) t =
      nice_with-Outcome m procs n (e.nice_to_priority m.nice) t refl

  -- `do_nice` either returns an error number and leaves every slot as it was, also when it is the
  -- kernel that refuses, or returns OK; then the process of the message has the queue of the nice
  -- value as its current and its best one, the kernel has been told so in one call, and no
  -- other slot has changed.
  pub do_nice-Outcome :
      (m : Request Nice) (procs : Procs Nice)
      → Refused procs (do_nice e m procs) ⊎ Accepted m procs (do_nice e m procs)
  unfolding do_nice
  do_nice-Outcome m procs = elim (Bool-cases (e.is_from_pm m.m_source)) [
    | inl pm ↦ rw pm (nice_at-Outcome m procs (e.isokendpt procs m.endpoint) refl)
    | inr other ↦ rw other (inl (record { number = e.eperm; code = refl; same = λ i. refl }))
  ]
