-- ===== src/Sched.antt =====
-- minix/schedule.c: the policy of the user-mode scheduler. The slots are a function of their
-- number; a handler returns its code, the slots afterwards and the calls of `sys_schedule` made.
pub mod Balance
pub mod Bounds
pub mod Nice
pub mod Start
use tcp_and_parallel.Prelude.{
  ℕ, zero, suc, ◌+◌, ◌-◌, Bool, true, false, ◌&&◌, List, [], ◌∷◌, ◌++◌, ltb, ◌==◌, if◌then◌else◌,
  update,
}

-- A return code: OK, or an error number.
pub data Code : Type 0 where
  ok : Code
  error : ℕ → Code

pub data Lookup : Type 0 where
  slot : ℕ → Lookup
  bad : ℕ → Lookup

-- `struct schedproc`; `in_use` is the bit IN_USE of `flags`.
pub record Schedproc (N : Type 0) : Type 0 where
  pub endpoint : ℕ
  pub parent : ℕ
  pub nice : N
  pub max_priority : ℕ
  pub priority : ℕ
  pub time_slice : ℕ
  pub in_use : Bool

abbrev pub Procs : Type 0 → Type 0
Procs N = ℕ → Schedproc N

-- What other files and the kernel give: the type of a nice value and `nice_to_priority`; the
-- lookups of endpoints; the answers of `sys_schedule` and `sys_schedctl`; constants.
pub record Env : Type 1 where
  pub Nice : Type 0
  pub nice_to_priority : Nice → Lookup
  pub isokendpt : Procs Nice → ℕ → Lookup
  pub isemtyendpt : Procs Nice → ℕ → Lookup
  pub is_from_pm : ℕ → Bool
  pub sys_schedule : ℕ → ℕ → ℕ → Code
  pub sys_schedctl : ℕ → Code
  pub ebadsrcdst : ℕ
  pub eperm : ℕ
  pub nr_procs : ℕ
  pub min_user_q : ℕ
  pub user_q : ℕ

-- A call of `sys_schedule`.
pub record Call : Type 0 where
  pub endpoint : ℕ
  pub priority : ℕ
  pub time_slice : ℕ

pub record Reply (N : Type 0) : Type 0 where
  pub code : Code
  pub procs : Procs N
  pub calls : List Call
  -- The scheduler has written its own number into SCHEDULING_SCHEDULER of the message.
  pub claimed : Bool

pub record Request (N : Type 0) : Type 0 where
  pub m_source : ℕ
  pub endpoint : ℕ
  pub parent : ℕ
  pub nice : N

pub default_user_time_slice : ℕ
default_user_time_slice = 300

pub secondary_user_time_slice : ℕ
secondary_user_time_slice = 150

module _ (e : Env) where
  open e use {Nice}

  abbrev just : Code → Procs Nice → Reply Nice
  just c procs = record { code = c; procs = procs; calls = []; claimed = false }

  -- What the kernel is told of a slot, and its answer.
  pub schedule_process : Schedproc Nice → Code × Call
  schedule_process rmp = (
    e.sys_schedule rmp.endpoint rmp.priority rmp.time_slice,
    record { endpoint = rmp.endpoint; priority = rmp.priority; time_slice = rmp.time_slice },
  )

  -- A slot is written and then scheduled.
  abbrev scheduled : ℕ → Schedproc Nice → Procs Nice → Reply Nice
  scheduled n rmp procs =
      let (c, call) = schedule_process rmp in
      record { code = c; procs = update procs n rmp; calls = call ∷ []; claimed = false }

  lowered : Schedproc Nice → Schedproc Nice
  lowered rmp =
      if ltb rmp.priority e.min_user_q then record rmp { priority = rmp.priority + 1 } else rmp

  noquantum_at : Procs Nice → Lookup → Reply Nice
  unfolding lowered schedule_process
  noquantum_at procs (bad c) = just (error e.ebadsrcdst) procs
  noquantum_at procs (slot n) = scheduled n (lowered (procs n)) procs

  pub do_noquantum : ℕ → Procs Nice → Reply Nice
  unfolding noquantum_at
  do_noquantum m_source procs = noquantum_at procs (e.isokendpt procs m_source)

  stop_at : Procs Nice → Lookup → Reply Nice
  stop_at procs (bad c) = just (error e.ebadsrcdst) procs
  stop_at procs (slot n) = just ok (update procs n (record (procs n) { in_use = false }))

  pub do_stop_scheduling : Request Nice → Procs Nice → Reply Nice
  unfolding stop_at
  do_stop_scheduling m procs =
      if e.is_from_pm m.m_source
      then stop_at procs (e.isokendpt procs m.endpoint)
      else just (error e.eperm) procs

  pub claim : Code → Bool
  claim ok = true
  claim (error c) = false

  -- From `sys_schedctl` on. The slot has been written already.
  take_over : ℕ → Procs Nice → Code → Reply Nice
  unfolding schedule_process claim
  take_over n procs (error c) = just (error c) procs
  take_over n procs ok =
      let r = scheduled n (record (procs n) { in_use = true }) procs in
      record r { claimed = claim r.code }

  set_queue : ℕ → ℕ → ℕ → Procs Nice → Procs Nice
  set_queue n priority slice procs =
      update procs n (record (procs n) { priority = priority; time_slice = slice })

  take_queue : ℕ → ℕ → ℕ → Procs Nice → Reply Nice
  unfolding set_queue take_over
  take_queue n priority slice procs =
      let procs' = set_queue n priority slice procs in
      take_over n procs' (e.sys_schedctl (procs' n).endpoint)

  -- Priority and time slice of the parent.
  inherit : ℕ → Procs Nice → Lookup → Reply Nice
  unfolding take_queue
  inherit n procs (bad c) = just (error c) procs
  inherit n procs (slot parent) =
      take_queue n (procs parent).priority (procs parent).time_slice procs

  start_with : ℕ → ℕ → Procs Nice → Lookup → Reply Nice
  unfolding inherit
  start_with duts n procs (bad c) = just (error c) procs
  start_with duts n procs (slot q) =
      let procs' = update procs n (record (procs n) { max_priority = q }) in
      if (procs' n).endpoint == (procs' n).parent
      then take_queue n e.user_q duts procs'
      else inherit n procs' (e.isokendpt procs' (procs' n).parent)

  start_at : ℕ → Request Nice → Procs Nice → Lookup → Reply Nice
  unfolding start_with
  start_at duts m procs (bad c) = just (error c) procs
  start_at duts m procs (slot n) =
      start_with duts n
        (update procs n
          (record (procs n) { endpoint = m.endpoint; parent = m.parent; nice = m.nice }))
        (e.nice_to_priority m.nice)

  -- `duts` is the variable DUTS.
  pub do_start_scheduling : ℕ → Request Nice → Procs Nice → Reply Nice
  unfolding start_at
  do_start_scheduling duts m procs =
      if e.is_from_pm m.m_source
      then start_at duts m procs (e.isemtyendpt procs m.endpoint)
      else just (error e.eperm) procs

  -- After the call of `schedule_process`: on a refusal the old values are put back.
  roll_back : ℕ → Schedproc Nice → Code → Procs Nice → List Call → Reply Nice
  roll_back n old ok procs calls = record {
    code = ok;
    procs = procs;
    calls = calls;
    claimed = false;
  }
  roll_back n old (error c) procs calls = record {
    code = error c;
    procs = update procs n (record (procs n) {
      priority = old.priority;
      max_priority = old.max_priority;
      nice = old.nice;
    });
    calls = calls;
    claimed = false;
  }

  nice_with : ℕ → Nice → Procs Nice → Lookup → Reply Nice
  unfolding roll_back schedule_process
  nice_with n nice procs (bad c) = just (error c) procs
  nice_with n nice procs (slot q) =
      let rmp = record (procs n) { max_priority = q; priority = q; nice = nice } in
      let (c, call) = schedule_process rmp in
      roll_back n (procs n) c (update procs n rmp) (call ∷ [])

  nice_at : Nice → Procs Nice → Lookup → Reply Nice
  unfolding nice_with
  nice_at nice procs (bad c) = just (error e.ebadsrcdst) procs
  nice_at nice procs (slot n) = nice_with n nice procs (e.nice_to_priority nice)

  pub do_nice : Request Nice → Procs Nice → Reply Nice
  unfolding nice_at
  do_nice m procs =
      if e.is_from_pm m.m_source
      then nice_at m.nice procs (e.isokendpt procs m.endpoint)
      else just (error e.eperm) procs

  pub raised : Schedproc Nice → Schedproc Nice
  raised rmp =
      if rmp.in_use && ltb rmp.max_priority rmp.priority
      then record rmp { priority = rmp.priority - 1 }
      else rmp

  -- The loop of `balance_queues` over the slots from `i`, `k` of them; it counts the processes.
  balance_loop : (k i : ℕ) → Procs Nice → ℕ → List Call → ℕ × Procs Nice × List Call
  unfolding raised schedule_process
  balance_loop zero i procs nr_procs calls = (nr_procs, procs, calls)
  balance_loop (suc k) i procs nr_procs calls =
      let rmp = procs i in
      balance_loop k (i + 1) (update procs i (raised rmp))
        (if rmp.in_use then nr_procs + 1 else nr_procs)
        (if rmp.in_use && ltb rmp.max_priority rmp.priority
          then calls ++ (schedule_process (raised rmp)).1 ∷ []
          else calls)

  time_slice_for : ℕ → ℕ
  unfolding default_user_time_slice secondary_user_time_slice
  time_slice_for nr_procs =
      if ltb nr_procs 15
      then default_user_time_slice
      else if ltb nr_procs 75
      then secondary_user_time_slice
      else default_user_time_slice

  -- The new value of DUTS, the slots and the calls.
  pub balance_queues : Procs Nice → ℕ × Procs Nice × List Call
  unfolding balance_loop time_slice_for
  balance_queues procs =
      let (nr_procs, procs', calls) = balance_loop e.nr_procs 0 procs 0 [] in
      (time_slice_for nr_procs, procs', calls)

  -- A request that the scheduler serves. Each leaves DUTS and the slots.
  pub data Event : Type 0 where
    noquantum : ℕ → Event
    stop : Request Nice → Event
    start : Request Nice → Event
    renice : Request Nice → Event
    balance : Event

  pub handle : Event → ℕ → Procs Nice → ℕ × Procs Nice
  handle (noquantum m) duts procs = (duts, (do_noquantum m procs).procs)
  handle (stop m) duts procs = (duts, (do_stop_scheduling m procs).procs)
  handle (start m) duts procs = (duts, (do_start_scheduling duts m procs).procs)
  handle (renice m) duts procs = (duts, (do_nice m procs).procs)
  handle balance duts procs = ((balance_queues procs).0, (balance_queues procs).1)
