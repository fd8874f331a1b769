-- ===== src/Tsh/Shell/Keeps.antt =====
-- The invariant of tsh.c's shell, and that `fg` and `bg` keep it.
use csapp.Common.{
  ℕ, ◌≡◌, ◌≢◌, refl, sym, inl, inr, ◌∙◌, ap, Bool, true, false, Option, none, some, List, [], ◌∷◌,
  ◌==◌, if◌then◌else◌, length-set, arith, All, All-get_elem?, get_elem?, Bool-cases,
}
use csapp.Tsh.Jobs.{JobState, undef, fg, bg, Job, is_fg, getjobpid, getjobjid}
use csapp.Tsh.Jobs.Lists.{has_pid, IsSlot}
use csapp.Tsh.Jobs.Slots.{getjobpid_lem, getjobjid_lem, All-restated, IsUnique-restated, restated}
use csapp.Tsh.Jobs.Invariant.{IsValid}
use csapp.Tsh.Shell.{
  Effect, Shell, Outcome, runs, exits, fault, with_jobs, same, bg_word, resume, do_bgfg, all_digits,
  atoi, resume_at, by_pid, by_jid, is_st, sigcont, resumed, kill_group,
}

-- A foreground job is the one that the shell waits for.
abbrev pub Awaited : Option ℕ → Job → Type 0
Awaited waiting j = is_fg j.state ≡ true → waiting ≡ some j.pid

pub record Inv (sh : Shell) : Type 0 where
  pub valid : IsValid sh.list
  pub awaited : All (Awaited sh.waiting) sh.list.jobs

-- `fork` gives a pid that no job has.
abbrev pub IsFresh : Option ℕ → Shell → Type 0
IsFresh none sh = Unit
IsFresh (some pid) sh = (pid ≢ 0) × (has_pid pid sh.list.jobs ≡ false)

-- A state that a handler leaves keeps the invariant, and there is no fault.
abbrev pub Keeps : Outcome → Type 0
Keeps (runs sh out) = Inv sh
Keeps (exits code out) = Unit
Keeps fault = ⊥

-- A change of one job's state keeps the list valid, and `w` is the new wait.
pub restated-Inv :
    (sh : Shell) (w : Option ℕ) (s : JobState) (slot : ℕ) {job : Job}
    → Inv sh
    → get_elem? sh.list.jobs slot ≡ some job
    → job.pid ≢ 0
    → s ≢ undef
    → ((j : Job) → j.pid ≢ job.pid → Awaited sh.waiting j → Awaited w j)
    → Awaited w (record job { state = s })
    → Inv (record (with_jobs sh (restated s sh.list.jobs slot job)) { waiting = w })
restated-Inv sh w s slot {job} inv e n s_ne others mine = record {
  valid = record {
    size = length-set sh.list.jobs slot (record job { state = s }) ∙ inv.valid.size;
    slots =
        All-restated s IsSlot IsSlot sh.list.jobs slot e inv.valid.unique n (λ j q p. p)
          ((λ z. absurd (n z)), (λ z. ((job_slot.1 n).0, s_ne))) inv.valid.slots;
    unique = IsUnique-restated s sh.list.jobs slot e inv.valid.unique;
    next = inv.valid.next;
  };
  awaited =
      All-restated s (Awaited sh.waiting) (Awaited w) sh.list.jobs slot e inv.valid.unique n others
        mine inv.awaited;
}
  where
    job_slot : IsSlot job
    job_slot = All-get_elem? IsSlot sh.list.jobs slot inv.valid.slots e

-- With no wait on, no job is in the foreground, so any wait may begin.
idle_others :
    {w : Option ℕ} (p : ℕ) (waiting : Option ℕ)
    → waiting ≡ none
    → (j : Job) → j.pid ≢ p
    → Awaited waiting j
    → Awaited w j
idle_others p waiting e j n a f = absurd (ground (arith, a f))

-- A job that is sent to the background.
pub background-Inv :
    (slot : ℕ) (sh : Shell) {job : Job}
    → Inv sh
    → get_elem? sh.list.jobs slot ≡ some job
    → job.pid ≢ 0
    → Inv (with_jobs sh (restated bg sh.list.jobs slot job))
background-Inv slot sh inv e n =
    restated-Inv sh sh.waiting bg slot inv e n (λ f. cc f) (λ j q a. a) (λ f. absurd (ground arith))

-- A job that is brought to the foreground, and waited for.
pub foreground-Inv :
    (slot : ℕ) (sh : Shell) {job : Job}
    → Inv sh
    → sh.waiting ≡ none
    → get_elem? sh.list.jobs slot ≡ some job
    → job.pid ≢ 0
    → Inv (record (with_jobs sh (restated fg sh.list.jobs slot job)) { waiting = some job.pid })
foreground-Inv slot sh {job} inv idle e n =
    restated-Inv sh (some job.pid) fg slot inv e n (λ f. cc f) (idle_others job.pid sh.waiting idle)
      (λ f. refl)

resume-Keeps :
    (killed : Bool) (name : List ℕ) (slot : ℕ) (sh : Shell) {job : Job}
    → Inv sh
    → sh.waiting ≡ none
    → get_elem? sh.list.jobs slot ≡ some job
    → job.pid ≢ 0
    → Keeps (resume killed name slot job sh)
unfolding resume
resume-Keeps killed name slot sh {job} inv idle e n =
    choose (same name bg_word) killed (is_st job.state)
  where
    choose :
        (is_bg ok is_stopped : Bool)
        → Keeps (
            if is_bg
            then if ok
              then runs
                  (with_jobs sh (restated bg sh.list.jobs slot job))
                  (resumed job.jid job.pid job.cmdline ∷ kill_group job.pid sigcont ∷ [])
              else exits 1 (resumed job.jid job.pid job.cmdline ∷ kill_group job.pid sigcont ∷ [])
            else if is_stopped
            then if ok
              then runs
                  (record (with_jobs sh (restated fg sh.list.jobs slot job)) {
                    waiting = some job.pid;
                  })
                  (kill_group job.pid sigcont ∷ [])
              else exits 1 (kill_group job.pid sigcont ∷ [])
            else runs
                (record (with_jobs sh (restated fg sh.list.jobs slot job)) {
                  waiting = some job.pid;
                })
                [])
    choose true true t = background-Inv slot sh inv e n
    choose true false t = tt
    choose false true true = foreground-Inv slot sh inv idle e n
    choose false false true = tt
    choose false true false = foreground-Inv slot sh inv idle e n
    choose false false false = foreground-Inv slot sh inv idle e n

resume_at-Keeps :
    (killed : Bool) (name : List ℕ) (missing : Effect) (found : Option ℕ) (sh : Shell)
    → Inv sh
    → sh.waiting ≡ none
    → ((slot : ℕ)
        → found ≡ some slot
        → (j : Job) × (get_elem? sh.list.jobs slot ≡ some j) × (j.pid ≢ 0))
    → Keeps (resume_at killed name missing found sh)
resume_at-Keeps killed name missing none sh inv idle holds = inv
resume_at-Keeps killed name missing (some slot) sh inv idle holds =
    let (j, e, n) = holds slot refl in rw (e, Keeps) (resume-Keeps killed name slot sh inv idle e n)

by_pid-Keeps :
    (killed : Bool) (name arg : List ℕ) (sh : Shell)
    → Inv sh
    → sh.waiting ≡ none
    → Keeps (by_pid killed name arg sh)
by_pid-Keeps killed name arg sh inv idle = elim (Bool-cases (all_digits arg)) [
  | inr e ↦ rw e inv
  | inl e ↦ rw e (
      resume_at-Keeps killed name _ (getjobpid sh.list.jobs (atoi 0 arg)) sh inv idle
        λ slot f. let (j, a, b, c, d) = getjobpid_lem sh.list.jobs (atoi 0 arg) f in (j, a, rw c d))
]

by_jid-Keeps :
    (killed : Bool) (name digits : List ℕ) (sh : Shell)
    → Inv sh
    → sh.waiting ≡ none
    → Keeps (by_jid killed name digits sh)
by_jid-Keeps killed name digits sh inv idle = elim (Bool-cases (all_digits digits)) [
  | inr e ↦ rw e inv
  | inl e ↦ rw e (
      resume_at-Keeps killed name _ (getjobjid sh.list.jobs (atoi 0 digits)) sh inv idle λ slot f.
        let (j, a, c, d) = getjobjid_lem sh.list.jobs (atoi 0 digits) f in
        let s : IsSlot j = All-get_elem? IsSlot sh.list.jobs slot inv.valid.slots a in
        (j, a, λ z. d (sym c ∙ ap (λ (k : Job). k.jid) (s.0 z))))
]

pub do_bgfg-Keeps :
    (killed : Bool) (name : List ℕ) (args : List (List ℕ)) (sh : Shell)
    → Inv sh
    → sh.waiting ≡ none
    → Keeps (do_bgfg killed name args sh)
unfolding do_bgfg
do_bgfg-Keeps killed name [] sh inv idle = inv
do_bgfg-Keeps killed name ([] ∷ args) sh inv idle = by_pid-Keeps killed name [] sh inv idle
do_bgfg-Keeps killed name ((c ∷ cs) ∷ args) sh inv idle = elim (Bool-cases (c == b'%')) [
  | inl e ↦ rw e (by_jid-Keeps killed name cs sh inv idle)
  | inr e ↦ rw e (by_pid-Keeps killed name (c ∷ cs) sh inv idle)
]
