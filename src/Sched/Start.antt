-- ===== src/Sched/Start.antt =====
-- minix/schedule.c: what `do_start_scheduling` leaves.
use tcp_and_parallel.Prelude.{
  ℕ, ◌≡◌, ◌≢◌, refl, sym, ap, ◌∙◌, ◌⊎◌, inl, inr, arith, true, false, [], ◌∷◌, ◌==◌, update,
  Bool-cases, if_ind, ==_self, ==_of_ne, eq_of_==,
}
use tcp_and_parallel.Sched.{
  Env, Code, ok, error, Lookup, slot, bad, Procs, Reply, Request, claim, take_over, set_queue,
  take_queue, inherit, start_with, start_at, do_start_scheduling,
}

ne_of_== : (a b : ℕ) → (a == b) ≡ false → a ≢ b
ne_of_== a b h e = ground arith

module _ (e : Env) where
  open e use {Nice}

  -- The slots with the process entered in slot `n`, and `q` as its best queue.
  abbrev pub entered : Request Nice → ℕ → ℕ → Procs Nice → Procs Nice
  entered m n q procs =
      let procs' =
        update procs n
          (record (procs n) { endpoint = m.endpoint; parent = m.parent; nice = m.nice }) in
      update procs' n (record (procs' n) { max_priority = q })

  -- Where the first queue and the time slice come from: either the process is its own parent, or it
  -- is not.
  abbrev pub Origin : ℕ → Request Nice → ℕ → ℕ → Procs Nice → ℕ → ℕ → Type 0
  Origin duts m n q procs priority slice =
      ((m.endpoint ≡ m.parent) × (priority ≡ e.user_q) × (slice ≡ duts))
      ⊎ ((m.endpoint ≢ m.parent)
          × (k : ℕ) × (e.isokendpt (entered m n q procs) m.parent ≡ slot k)
          × (priority ≡ (entered m n q procs k).priority)
          × (slice ≡ (entered m n q procs k).time_slice))

  -- The kernel was told nothing, and the same slots are in use.
  pub record NotStarted (procs : Procs Nice) (r : Reply Nice) : Type 0 where
    pub number : ℕ
    pub code : r.code ≡ error number
    pub told : r.calls ≡ []
    pub claimed : r.claimed ≡ false
    pub in_use : (i : ℕ) → (r.procs i).in_use ≡ (procs i).in_use

  -- The slot is filled and in use, the kernel has been told in one call, whose answer is the code;
  -- the message names this scheduler if the kernel agrees.
  pub record Started (duts : ℕ) (m : Request Nice) (procs : Procs Nice) (r : Reply Nice)
      : Type 0 where
    pub n : ℕ
    pub q : ℕ
    pub priority : ℕ
    pub slice : ℕ
    pub target : e.isemtyendpt procs m.endpoint ≡ slot n
    pub queue : e.nice_to_priority m.nice ≡ slot q
    pub origin : Origin duts m n q procs priority slice
    pub entry : r.procs n ≡ record (procs n) {
      endpoint = m.endpoint;
      parent = m.parent;
      nice = m.nice;
      max_priority = q;
      priority = priority;
      time_slice = slice;
      in_use = true;
    }
    pub others : (i : ℕ) → n ≢ i → r.procs i ≡ procs i
    pub told :
        r.calls ≡ record { endpoint = m.endpoint; priority = priority; time_slice = slice } ∷ []
    pub code : r.code ≡ e.sys_schedule m.endpoint priority slice
    pub claimed : r.claimed ≡ claim e r.code

  abbrev Outcome : ℕ → Request Nice → Procs Nice → Reply Nice → Type 0
  Outcome duts m procs r = NotStarted procs r ⊎ Started duts m procs r

  entered-in_use :
      (m : Request Nice) (n q : ℕ) (procs : Procs Nice) (i : ℕ)
      → (entered m n q procs i).in_use ≡ (procs i).in_use
  entered-in_use m n q procs i = elim (Bool-cases (n == i)) [
    | inl here ↦ rw (here, ==_self n) (ap (λ (j : ℕ). (procs j).in_use) (eq_of_== n i here))
    | inr other ↦ rw (other) refl
  ]

  queued-in_use :
      (m : Request Nice) (n q p s : ℕ) (procs : Procs Nice) (i : ℕ)
      → (set_queue e n p s (entered m n q procs) i).in_use ≡ (procs i).in_use
  unfolding set_queue
  queued-in_use m n q p s procs i = elim (Bool-cases (n == i)) [
    | inl here ↦ rw (here, ==_self n) (ap (λ (j : ℕ). (procs j).in_use) (eq_of_== n i here))
    | inr other ↦ rw (other) refl
  ]

  take_over-Outcome :
      (duts : ℕ) (m : Request Nice) (procs : Procs Nice) (n q p s : ℕ) (c : Code)
      → e.isemtyendpt procs m.endpoint ≡ slot n
      → e.nice_to_priority m.nice ≡ slot q
      → Origin duts m n q procs p s
      → Outcome duts m procs (take_over e n (set_queue e n p s (entered m n q procs)) c)
  unfolding take_over set_queue
  take_over-Outcome duts m procs n q p s (error c) t u o = inl (record {
    number = c;
    code = refl;
    told = refl;
    claimed = refl;
    in_use = queued-in_use m n q p s procs;
  })
  take_over-Outcome duts m procs n q p s ok t u o = inr (record {
    n = n;
    q = q;
    priority = p;
    slice = s;
    target = t;
    queue = u;
    origin = o;
    entry = rw (==_self n) refl;
    others = λ i h. rw (==_of_ne n i h) refl;
    told = rw (==_self n) refl;
    code = rw (==_self n) refl;
    claimed = refl;
  })

  take_queue-Outcome :
      (duts : ℕ) (m : Request Nice) (procs : Procs Nice) (n q p s : ℕ)
      → e.isemtyendpt procs m.endpoint ≡ slot n
      → e.nice_to_priority m.nice ≡ slot q
      → Origin duts m n q procs p s
      → Outcome duts m procs (take_queue e n p s (entered m n q procs))
  unfolding take_queue
  take_queue-Outcome duts m procs n q p s t u o =
      take_over-Outcome duts m procs n q p s
        (e.sys_schedctl (set_queue e n p s (entered m n q procs) n).endpoint) t u o

  inherit-Outcome :
      (duts : ℕ) (m : Request Nice) (procs : Procs Nice) (n q : ℕ) (l : Lookup)
      → e.isemtyendpt procs m.endpoint ≡ slot n
      → e.nice_to_priority m.nice ≡ slot q
      → m.endpoint ≢ m.parent
      → e.isokendpt (entered m n q procs) m.parent ≡ l
      → Outcome duts m procs (inherit e n (entered m n q procs) l)
  unfolding inherit
  inherit-Outcome duts m procs n q (bad c) t u apart v = inl (record {
    number = c;
    code = refl;
    told = refl;
    claimed = refl;
    in_use = entered-in_use m n q procs;
  })
  inherit-Outcome duts m procs n q (slot k) t u apart v =
      take_queue-Outcome duts m procs n q (entered m n q procs k).priority
        (entered m n q procs k).time_slice t u (inr (apart, k, v, refl, refl))

  filled-in_use :
      (m : Request Nice) (n : ℕ) (procs : Procs Nice) (i : ℕ)
      → (update procs n
          (record (procs n) { endpoint = m.endpoint; parent = m.parent; nice = m.nice })
          i).in_use
        ≡ (procs i).in_use
  filled-in_use m n procs i = elim (Bool-cases (n == i)) [
    | inl here ↦ rw (here) (ap (λ (j : ℕ). (procs j).in_use) (eq_of_== n i here))
    | inr other ↦ rw (other) refl
  ]

  start_with-Outcome :
      (duts : ℕ) (m : Request Nice) (procs : Procs Nice) (n : ℕ) (l : Lookup)
      → e.isemtyendpt procs m.endpoint ≡ slot n
      → e.nice_to_priority m.nice ≡ l
      → Outcome duts m procs (
          start_with e duts n
            (update procs n
              (record (procs n) { endpoint = m.endpoint; parent = m.parent; nice = m.nice }))
            l)
  unfolding start_with
  start_with-Outcome duts m procs n (bad c) t u = inl (record {
    number = c;
    code = refl;
    told = refl;
    claimed = refl;
    in_use = filled-in_use m n procs;
  })
  start_with-Outcome duts m procs n (slot q) t u =
      let child : (entered m n q procs n).endpoint ≡ m.endpoint = rw (==_self n) refl in
      let parent : (entered m n q procs n).parent ≡ m.parent = rw (==_self n) refl in
      if_ind (Outcome duts m procs)
        ((entered m n q procs n).endpoint == (entered m n q procs n).parent) _ _
        (λ own.
          take_queue-Outcome duts m procs n q e.user_q duts t u
            (inl (sym child ∙ (eq_of_== _ _ own ∙ parent), refl, refl)))
        (λ other.
          inherit-Outcome duts m procs n q
            (e.isokendpt (entered m n q procs) (entered m n q procs n).parent) t u
            (λ own. ne_of_== _ _ other (child ∙ (own ∙ sym parent)))
            (ap (λ (p : ℕ). e.isokendpt (entered m n q procs) p) (sym parent)))

  start_at-Outcome :
      (duts : ℕ) (m : Request Nice) (procs : Procs Nice) (l : Lookup)
      → e.isemtyendpt procs m.endpoint ≡ l
      → Outcome duts m procs (start_at e duts m procs l)
  unfolding start_at
  start_at-Outcome duts m procs (bad c) t =
      inl (record { number = c; code = refl; told = refl; claimed = refl; in_use = λ i. refl })
  start_at-Outcome duts m procs (slot n) t =
      start_with-Outcome duts m procs n (e.nice_to_priority m.nice) t refl

  -- `do_start_scheduling` either returns an error number, tells the kernel nothing and leaves the same
  -- slots in use, or it fills the slot of the new process and marks it as in use: its best queue
  -- is that of the nice value; its queue and time slice are USER_Q and DUTS if the process is its own
  -- parent, and otherwise those of the parent. The kernel is told so in one call, its answer is
  -- the code, the message names this scheduler only if the answer is OK, and no other slot changes.
  pub do_start_scheduling-Outcome :
      (duts : ℕ) (m : Request Nice) (procs : Procs Nice)
      → NotStarted procs (do_start_scheduling e duts m procs)
        ⊎ Started duts m procs (do_start_scheduling e duts m procs)
  unfolding do_start_scheduling
  do_start_scheduling-Outcome duts m procs =
      if_ind (Outcome duts m procs) (e.is_from_pm m.m_source) _ _
        (λ pm. start_at-Outcome duts m procs (e.isemtyendpt procs m.endpoint) refl)
        (λ other. inl (record {
          number = e.eperm;
          code = refl;
          told = refl;
          claimed = refl;
          in_use = λ i. refl;
        }))
