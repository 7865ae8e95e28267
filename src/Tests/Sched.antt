-- ===== src/Tests/Sched.antt =====
-- Runs of the scheduler of minix/schedule.c.
use tcp_and_parallel.Prelude.{
  ℕ, ◌+◌, ◌-◌, ◌≡◌, ◌≤◌, refl, true, ◌⊎◌, arith, ltb, ◌==◌, if◌then◌else◌,
}
use tcp_and_parallel.Sched.{
  Env, ok, error, slot, bad, Procs, Request, do_nice, do_start_scheduling, noquantum, handle,
  balance_queues,
}
use tcp_and_parallel.Sched.Balance.{rounds, rounds-priority, one_up, balance_queues_lem}
use tcp_and_parallel.Sched.Bounds.{InRange, handle-Bounded}
use tcp_and_parallel.Sched.Start.{NotStarted, Started, do_start_scheduling-Outcome}
use tcp_and_parallel.Sched.Nice.{Refused, Accepted, do_nice-Outcome}

-- Nice values 0 to 7 name the queues 7 to 14; endpoints are 100 and the slot; the kernel refuses
-- the process 103.
abbrev kernel : Env
kernel = record {
  Nice = ℕ;
  nice_to_priority = λ v. if ltb v 8 then slot (v + 7) else bad 22;
  isokendpt = λ procs e. if ltb e 100 then bad 1 else slot (e - 100);
  isemtyendpt = λ procs e. if ltb e 100 then bad 1 else slot (e - 100);
  is_from_pm = λ m. m == 0;
  sys_schedule = λ e q t. if e == 103 then error 5 else ok;
  sys_schedctl = λ e. ok;
  ebadsrcdst = 44;
  eperm = 1;
  nr_procs = 4;
  min_user_q = 14;
  user_q = 7;
}

abbrev procs : Procs ℕ
procs n = record {
  endpoint = n + 100;
  parent = 100;
  nice = 0;
  max_priority = 7;
  priority = n + 8;
  time_slice = 300;
  in_use = true;
}

abbrev refused : Request ℕ
refused = record { m_source = 0; endpoint = 103; parent = 100; nice = 2 }

do_nice-Outcome_example :
    Refused kernel procs (do_nice kernel refused procs)
    ⊎ Accepted kernel refused procs (do_nice kernel refused procs)
do_nice-Outcome_example = do_nice-Outcome kernel refused procs

rounds-priority_example : (rounds kernel 3 procs 2).priority ≡ 7
rounds-priority_example =
    rounds-priority kernel 3 2 procs (ground arith) refl (ground arith) (ground arith)

balance_queues_lem_example :
    ((j : ℕ)
      → (balance_queues kernel procs).1 j ≡ (if ltb j 4 then one_up kernel (procs j) else procs j))
    × ((balance_queues kernel procs).0 ≡ 300)
balance_queues_lem_example = balance_queues_lem kernel procs

kernel-InRange : InRange kernel
kernel-InRange = record { user = ground arith; nice = λ v q h. grind arith }

abbrev low : Procs ℕ
low n = record {
  endpoint = n + 100;
  parent = 100;
  nice = 0;
  max_priority = 7;
  priority = 14;
  time_slice = 300;
  in_use = true;
}

handle-Bounded_example : ((handle kernel (noquantum 102) 300 low).1 2).priority ≤ 14
handle-Bounded_example =
    handle-Bounded kernel kernel-InRange (noquantum 102) 300 low (λ i. ground arith) 2

do_start_scheduling-Outcome_example :
    NotStarted kernel procs (do_start_scheduling kernel 150 refused procs)
    ⊎ Started kernel 150 refused procs (do_start_scheduling kernel 150 refused procs)
do_start_scheduling-Outcome_example = do_start_scheduling-Outcome kernel 150 refused procs
