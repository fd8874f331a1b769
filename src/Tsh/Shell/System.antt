-- ===== src/Tsh/Shell/System.antt =====
-- The shell among its events: command lines, the end of a wait, and children that change state.
use mathlib.Core.Path.{subst}
use csapp.Common.{
  ℕ, ◌≤◌, ◌≡◌, ◌≢◌, ◌⊎◌, refl, sym, inl, inr, Bool, true, false, Option, none, some, List, arith,
  All, All-replicate, ◌↔◌, Bool-cases, Option-cases, get_elem?, set,
}
use csapp.Tsh.Jobs.{bg, fg, Job, JobList, cleared, max_jobs, is_fg, initjobs, getjobpid}
use csapp.Tsh.Jobs.Lists.{fg_count}
use csapp.Tsh.Jobs.Slots.{getjobpid_lem, All-widen, fgpid_lem, one_foreground}
use csapp.Tsh.Jobs.Invariant.{IsValid, initjobs-IsValid}
use csapp.Tsh.Parseline.{parseline}
use csapp.Tsh.Shell.{
  Effect, Shell, with_jobs, runs, fault, same, eval, still_waiting, reap_job, Status, exited,
  signaled, stopped_by, reap,
}
use csapp.Tsh.Shell.Keeps.{Awaited, Inv, IsFresh, Keeps, background-Inv, foreground-Inv}
use csapp.Tsh.Shell.Handlers.{eval-Keeps, reap-Keeps}

-- The handler of a child faults exactly when the child has no job and did not exit: it reads the
-- job's ID through NULL.
pub reap-fault_iff :
    (pid : ℕ) (status : Status) (sh : Shell)
    → (reap pid status sh ≡ fault) ↔ ((getjobpid sh.list.jobs pid ≡ none) × (status ≢ exited))
unfolding reap
reap-fault_iff pid exited sh = ((λ e. absurd (cc e)), (λ (e, n). absurd (n refl)))
reap-fault_iff pid (signaled sig) sh = elim (Option-cases (getjobpid sh.list.jobs pid)) [
  | inl e ↦ ((λ f. (e, (λ g. cc g))), (λ f. rw (e)))
  | inr (slot, e) ↦
      let (j, a, b, c, d) = getjobpid_lem sh.list.jobs pid e in
      rw (e, reap_job, a) ((λ f. absurd (cc f)), (λ (f, n). absurd (cc f)))
]
reap-fault_iff pid (stopped_by sig) sh = elim (Option-cases (getjobpid sh.list.jobs pid)) [
  | inl e ↦ ((λ f. (e, (λ g. cc g))), (λ f. rw (e)))
  | inr (slot, e) ↦
      let (j, a, b, c, d) = getjobpid_lem sh.list.jobs pid e in
      rw (e, reap_job, a) ((λ f. absurd (cc f)), (λ (f, n). absurd (cc f)))
]

-- The events of the shell. A command is read when it does not wait, and the wait ends by the test
-- of `waitfg`; a child's change of state is handled at any time. SIGCHLD is not blocked in `do_bgfg`:
-- it may look a job up, children may change state, and then it writes the job's state, which are
-- the steps `background` and `foreground`. They leave out the write to a job that was reaped
-- meanwhile, whose cleared slot then gets a state with the pid 0.
pub data Step (sh sh' : Shell) : Type 0 where
  command :
      (killed : Bool) (forked : Option ℕ) (cmdline : List ℕ) (out : List Effect)
      → sh.waiting ≡ none
      → IsFresh forked sh
      → eval killed forked cmdline sh ≡ runs sh' out
      → Step sh sh'
  background :
      (slot : ℕ) (job : Job)
      → sh.waiting ≡ none
      → get_elem? sh.list.jobs slot ≡ some job
      → job.pid ≢ 0
      → sh' ≡ with_jobs sh (set sh.list.jobs slot (record job { state = bg }))
      → Step sh sh'
  foreground :
      (slot : ℕ) (job : Job)
      → sh.waiting ≡ none
      → get_elem? sh.list.jobs slot ≡ some job
      → job.pid ≢ 0
      → sh' ≡ record (with_jobs sh (set sh.list.jobs slot (record job { state = fg }))) {
        waiting = some job.pid;
      }
      → Step sh sh'
  wake :
      (pid : ℕ)
      → sh.waiting ≡ some pid
      → still_waiting sh ≡ false
      → sh' ≡ record sh { waiting = none }
      → Step sh sh'
  child :
      (pid : ℕ) (status : Status) (out : List Effect)
      → pid ≢ 0
      → reap pid status sh ≡ runs sh' out
      → Step sh sh'

pub data Reach : Shell → Type 0 where
  start : Reach (record { list = record { jobs = initjobs; nextjid = 1 }; waiting = none })
  next : {sh sh' : Shell} → Reach sh → Step sh sh' → Reach sh'

eval-fault :
    (killed : Bool) (forked : Option ℕ) (cmdline : List ℕ) (sh : Shell)
    → parseline cmdline ≡ none
    → eval killed forked cmdline sh ≡ fault
unfolding eval
eval-fault killed forked cmdline sh e = rw (e, eval)

wake-Inv :
    (sh : Shell) (pid : ℕ)
    → sh.waiting ≡ some pid
    → still_waiting sh ≡ false
    → Inv sh
    → Inv (record sh { waiting = none })
unfolding still_waiting
wake-Inv sh pid e done inv = record {
  valid = inv.valid;
  awaited =
      elim (fgpid_lem (λ p. some p ≡ sh.waiting) sh.list.jobs
        (All-widen (Awaited sh.waiting) (λ j. is_fg j.state ≡ true → some j.pid ≡ sh.waiting)
          (λ j a f. sym (a f)) sh.list.jobs inv.awaited)) [
            | inl same ↦ absurd (ground arith)
            | inr quiet ↦
                All-widen (λ j. is_fg j.state ≡ false) (Awaited none)
                  (λ j h f. absurd (ground arith)) sh.list.jobs quiet
          ];
}

Step-Inv : {sh sh' : Shell} → Step sh sh' → Inv sh → Inv sh'
Step-Inv {sh} {sh'} (command killed forked cmdline out idle fresh e) inv = subst Keeps e (
    eval-Keeps killed forked cmdline sh inv idle fresh
      (λ f. absurd (cc (e, eval-fault killed forked cmdline sh f))))
Step-Inv {sh} {sh'} (background slot job idle e n same) inv =
    rw same (background-Inv slot sh inv e n)
Step-Inv {sh} {sh'} (foreground slot job idle e n same) inv =
    rw same (foreground-Inv slot sh inv idle e n)
Step-Inv {sh} {sh'} (wake pid e done same) inv = rw same (wake-Inv sh pid e done inv)
Step-Inv {sh} {sh'} (child pid status out n e) inv =
    subst Keeps e (reap-Keeps pid status sh n inv (λ f. absurd (cc (e, f))))

Reach-Inv : {sh : Shell} → Reach sh → Inv sh
Reach-Inv start = record { valid = initjobs-IsValid; awaited = initjobs-Awaited }
  where
    initjobs-Awaited : All (Awaited none) initjobs
    initjobs-Awaited = All-replicate (Awaited none) max_jobs cleared (λ f. absurd (ground arith))
Reach-Inv (next r s) = Step-Inv s (Reach-Inv r)

not-Awaited : {w : Option ℕ} (j : Job) → w ≡ none → Awaited w j → is_fg j.state ≡ false
not-Awaited j e a = elim (Bool-cases (is_fg j.state)) [ inl f ↦ absurd (cc (e, a f)) | inr f ↦ f ]

at_most_one :
    (w : Option ℕ) (l : JobList) → IsValid l → All (Awaited w) l.jobs → fg_count l.jobs ≤ 1
at_most_one none l v a = one_foreground 0 l.jobs v.slots v.unique (
    All-widen (Awaited none) (λ j. is_fg j.state ≡ true → j.pid ≡ 0) (λ j h f. absurd (cc (h f)))
      l.jobs a)
at_most_one (some p) l v a = one_foreground p l.jobs v.slots v.unique (
    All-widen (Awaited (some p)) (λ j. is_fg j.state ≡ true → j.pid ≡ p) (λ j h f. cc (h f)) l.jobs
      a)

-- In every state that the shell reaches, the job list is valid (16 slots, the free ones cleared,
-- the taken ones with a job ID and a state, no pid twice), at most one job is in the foreground,
-- and unless the shell waits for a job, none. The steps are those of `Step`: `do_bgfg` does not write
-- to a job that is reaped after it has found it.
pub Reach_safe :
    {sh : Shell}
    → Reach sh
    → IsValid sh.list
      × (fg_count sh.list.jobs ≤ 1)
      × (((pid : ℕ) × (sh.waiting ≡ some pid)) ⊎ All (λ j. is_fg j.state ≡ false) sh.list.jobs)
Reach_safe {sh} r =
    let inv = Reach-Inv r in
    (
      inv.valid,
      at_most_one sh.waiting sh.list inv.valid inv.awaited,
      elim (Option-cases sh.waiting) [
        | inl e ↦ inr (
            All-widen (Awaited sh.waiting) (λ j. is_fg j.state ≡ false) (λ j a. not-Awaited j e a)
              sh.list.jobs inv.awaited)
        | inr w ↦ inl w
      ],
    )

-- In a reachable state that reads commands, `eval` faults exactly when `parseline` does: `fg`,
-- `bg`, `jobs` and a launched command never do.
pub eval-fault_iff :
    {sh : Shell} (killed : Bool) (forked : Option ℕ) (cmdline : List ℕ)
    → Reach sh
    → sh.waiting ≡ none
    → IsFresh forked sh
    → (eval killed forked cmdline sh ≡ fault) ↔ (parseline cmdline ≡ none)
eval-fault_iff {sh} killed forked cmdline r idle fresh = (
  λ e. elim (Option-cases (parseline cmdline)) [
    | inl f ↦ f
    | inr (p, f) ↦ absurd (
        subst Keeps e
          (eval-Keeps killed forked cmdline sh (Reach-Inv r) idle fresh (λ g. absurd (cc (f, g)))))
  ],
  eval-fault killed forked cmdline sh,
)
