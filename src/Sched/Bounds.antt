-- ===== src/Sched/Bounds.antt =====
-- minix/schedule.c: no process falls below the last user queue.
use tcp_and_parallel.Prelude.{
  ℕ, ◌≤◌, ◌≡◌, refl, inl, inr, List, Bool, true, false, arith, ltb, ◌==◌, if◌then◌else◌, update,
  Bool-cases,
}
use tcp_and_parallel.Sched.{
  Env, Code, ok, error, Lookup, slot, bad, Procs, Schedproc, Call, Reply, Request, schedule_process,
  lowered, raised, noquantum_at, do_noquantum, stop_at, do_stop_scheduling, take_over, set_queue,
  take_queue, inherit, start_with, start_at, do_start_scheduling, roll_back, nice_with, nice_at,
  do_nice, balance_queues, Event, noquantum, stop, start, renice, balance, handle,
}
use tcp_and_parallel.Sched.Balance.{slots-raised}

-- What `nice_to_priority` and the constants are relied on for.
pub record InRange (e : Env) : Type 0 where
  pub user : e.user_q ≤ e.min_user_q
  pub nice : (v : e.Nice) (q : ℕ) → e.nice_to_priority v ≡ slot q → q ≤ e.min_user_q

module _ (e : Env) (range : InRange e) where
  open e use {Nice}

  abbrev pub Bounded : Procs Nice → Type 0
  Bounded procs = (i : ℕ) → (procs i).priority ≤ e.min_user_q

  update-Bounded :
      (procs : Procs Nice) (n : ℕ) (r : Schedproc Nice)
      → Bounded procs
      → r.priority ≤ e.min_user_q
      → Bounded (update procs n r)
  update-Bounded procs n r h k i = ground (arith, h i)

  noquantum_at-Bounded :
      (procs : Procs Nice) (l : Lookup) → Bounded procs → Bounded (noquantum_at e procs l).procs
  unfolding noquantum_at lowered
  noquantum_at-Bounded procs (bad c) h = h
  noquantum_at-Bounded procs (slot n) h = update-Bounded procs n _ h (ground (arith, h n))

  stop_at-Bounded :
      (procs : Procs Nice) (l : Lookup) → Bounded procs → Bounded (stop_at e procs l).procs
  unfolding stop_at
  stop_at-Bounded procs (bad c) h = h
  stop_at-Bounded procs (slot n) h = update-Bounded procs n _ h (h n)

  take_over-Bounded :
      (n : ℕ) (procs : Procs Nice) (c : Code)
      → Bounded procs
      → Bounded (take_over e n procs c).procs
  unfolding take_over
  take_over-Bounded n procs (error c) h = h
  take_over-Bounded n procs ok h = update-Bounded procs n _ h (h n)

  take_queue-Bounded :
      (n q s : ℕ) (procs : Procs Nice)
      → Bounded procs
      → q ≤ e.min_user_q
      → Bounded (take_queue e n q s procs).procs
  unfolding take_queue set_queue
  take_queue-Bounded n q s procs h k =
      let procs' : Procs Nice =
        update procs n (record (procs n) { priority = q; time_slice = s }) in
      take_over-Bounded n procs' (e.sys_schedctl (procs' n).endpoint)
        (update-Bounded procs n (record (procs n) { priority = q; time_slice = s }) h k)

  inherit-Bounded :
      (n : ℕ) (procs : Procs Nice) (l : Lookup)
      → Bounded procs
      → Bounded (inherit e n procs l).procs
  unfolding inherit
  inherit-Bounded n procs (bad c) h = h
  inherit-Bounded n procs (slot p) h = take_queue-Bounded n _ _ procs h (h p)

  start_with-Bounded :
      (duts n : ℕ) (procs : Procs Nice) (l : Lookup)
      → Bounded procs
      → Bounded (start_with e duts n procs l).procs
  unfolding start_with
  start_with-Bounded duts n procs (bad c) h = h
  start_with-Bounded duts n procs (slot q) h =
      let procs' : Procs Nice = update procs n (record (procs n) { max_priority = q }) in
      let h' : Bounded procs' = update-Bounded procs n _ h (h n) in
      elim (Bool-cases ((procs' n).endpoint == (procs' n).parent)) [
        | inl own ↦ rw own (take_queue-Bounded n e.user_q duts procs' h' range.user)
        | inr other ↦ rw other (inherit-Bounded n procs' (e.isokendpt procs' (procs' n).parent) h')
      ]

  start_at-Bounded :
      (duts : ℕ) (m : Request Nice) (procs : Procs Nice) (l : Lookup)
      → Bounded procs
      → Bounded (start_at e duts m procs l).procs
  unfolding start_at
  start_at-Bounded duts m procs (bad c) h = h
  start_at-Bounded duts m procs (slot n) h =
      let rmp : Schedproc Nice = record (procs n) {
        endpoint = m.endpoint;
        parent = m.parent;
        nice = m.nice;
      } in
      start_with-Bounded duts n (update procs n rmp) (e.nice_to_priority m.nice)
        (update-Bounded procs n rmp h (h n))

  roll_back-Bounded :
      (n : ℕ) (old : Schedproc Nice) (c : Code) (procs : Procs Nice) (calls : List Call)
      → old.priority ≤ e.min_user_q
      → Bounded procs
      → Bounded (roll_back e n old c procs calls).procs
  unfolding roll_back
  roll_back-Bounded n old ok procs calls k h = h
  roll_back-Bounded n old (error c) procs calls k h = update-Bounded procs n _ h k

  nice_with-Bounded :
      (n : ℕ) (v : Nice) (procs : Procs Nice) (l : Lookup)
      → e.nice_to_priority v ≡ l
      → Bounded procs
      → Bounded (nice_with e n v procs l).procs
  unfolding nice_with schedule_process
  nice_with-Bounded n v procs (bad c) same h = h
  nice_with-Bounded n v procs (slot q) same h =
      let rmp : Schedproc Nice = record (procs n) { max_priority = q; priority = q; nice = v } in
      roll_back-Bounded n (procs n) _ (update procs n rmp) _ (h n)
        (update-Bounded procs n rmp h (range.nice v q same))

  nice_at-Bounded :
      (v : Nice) (procs : Procs Nice) (l : Lookup)
      → Bounded procs
      → Bounded (nice_at e v procs l).procs
  unfolding nice_at
  nice_at-Bounded v procs (bad c) h = h
  nice_at-Bounded v procs (slot n) h = nice_with-Bounded n v procs (e.nice_to_priority v) refl h

  from_pm-Bounded :
      (b : Bool) (r s : Reply Nice)
      → Bounded r.procs
      → Bounded s.procs
      → Bounded (if b then r else s).procs
  from_pm-Bounded true r s h k = h
  from_pm-Bounded false r s h k = k

  balance_queues-Bounded : (procs : Procs Nice) → Bounded procs → Bounded (balance_queues e procs).1
  unfolding raised
  balance_queues-Bounded procs h j =
      let at : (balance_queues e procs).1 j
          ≡ (if ltb j e.nr_procs then raised e (procs j) else procs j) =
        slots-raised e procs j in
      let below : (raised e (procs j)).priority ≤ e.min_user_q = ground (arith, h j) in
      elim (Bool-cases (ltb j e.nr_procs)) [
        | inl inside ↦ rw (at, inside) below
        | inr outside ↦ rw (at, outside) (h j)
      ]

  -- No handler and no balancing takes a process below the last user queue: when every slot's
  -- priority is at most MIN_USER_Q, so is it after any event. The queues of nice values and USER_Q
  -- are relied on to be at most MIN_USER_Q.
  pub handle-Bounded :
      (ev : Event e) (duts : ℕ) (procs : Procs Nice)
      → Bounded procs
      → Bounded (handle e ev duts procs).1
  unfolding handle do_noquantum do_stop_scheduling do_start_scheduling do_nice
  handle-Bounded (noquantum m) duts procs h = noquantum_at-Bounded procs (e.isokendpt procs m) h
  handle-Bounded (stop m) duts procs h =
      from_pm-Bounded (e.is_from_pm m.m_source) _ _
        (stop_at-Bounded procs (e.isokendpt procs m.endpoint) h) h
  handle-Bounded (start m) duts procs h =
      from_pm-Bounded (e.is_from_pm m.m_source) _ _
        (start_at-Bounded duts m procs (e.isemtyendpt procs m.endpoint) h) h
  handle-Bounded (renice m) duts procs h =
      from_pm-Bounded (e.is_from_pm m.m_source) _ _
        (nice_at-Bounded m.nice procs (e.isokendpt procs m.endpoint) h) h
  handle-Bounded balance duts procs h = balance_queues-Bounded procs h
