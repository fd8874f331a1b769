-- ===== src/Tsh/Shell.antt =====
-- shelllab/tsh.c: the evaluation of a command line and the signal handlers. What the code prints
-- and the signals that it sends are a list of effects; what the kernel answers (`fork`, `kill`,
-- `waitpid`) is an argument.
pub mod Keeps
pub mod Handlers
pub mod System
use mathlib.Core.Option
use csapp.Common.{
  ℕ, zero, suc, ◌+◌, ◌-◌, ◌*◌, Bool, true, false, not, ◌&&◌, Option, none, some, List, [], ◌∷◌,
  ◌++◌, leb, ◌==◌, if◌then◌else◌, get_elem?, set,
}
use csapp.Tsh.Jobs.{
  JobState, undef, fg, bg, st, Job, JobList, addjob, deletejob, fgpid, getjobpid, getjobjid,
  pid2jid, listjobs,
}
use csapp.Tsh.Parseline.{parseline}

pub data Effect : Type 0 where
  needs_argument : List ℕ → Effect
  bad_argument : Effect
  no_such_job : ℕ → Effect
  no_such_process : ℕ → Effect
  resumed : ℕ → ℕ → List ℕ → Effect
  listed : List Job → Effect
  started : ℕ → Option ℕ → List ℕ → Effect
  too_many_jobs : Effect
  terminated : ℕ → ℕ → ℕ → Effect
  stopped : ℕ → ℕ → ℕ → Effect
  kill_group : ℕ → ℕ → Effect

abbrev pub sigint : ℕ
sigint = 2

abbrev pub sigcont : ℕ
sigcont = 18

abbrev pub sigtstp : ℕ
sigtstp = 20

-- `waiting` is the pid that `waitfg` waits for.
pub record Shell : Type 0 where
  pub list : JobList
  pub waiting : Option ℕ

-- `fault` is a dereference of NULL or a write out of range.
pub data Outcome : Type 0 where
  runs : Shell → List Effect → Outcome
  exits : ℕ → List Effect → Outcome
  fault : Outcome

abbrev pub with_jobs : Shell → List Job → Shell
with_jobs sh js = record sh { list = record sh.list { jobs = js } }

-- `strcmp` with a literal.
pub same : List ℕ → List ℕ → Bool
same [] [] = true
same [] (c ∷ cs) = false
same (b ∷ bs) [] = false
same (b ∷ bs) (c ∷ cs) = b == c && same bs cs

abbrev pub quit : List ℕ
quit = b'q' ∷ b'u' ∷ b'i' ∷ b't' ∷ []

abbrev pub jobs_word : List ℕ
jobs_word = b'j' ∷ b'o' ∷ b'b' ∷ b's' ∷ []

abbrev pub bg_word : List ℕ
bg_word = b'b' ∷ b'g' ∷ []

abbrev pub fg_word : List ℕ
fg_word = b'f' ∷ b'g' ∷ []

-- `strspn(s, "0123456789") == strlen(s)`
pub all_digits : List ℕ → Bool
all_digits [] = true
all_digits (c ∷ cs) = leb b'0' c && leb c b'9' && all_digits cs

-- `atoi` of a string of digits.
pub atoi : ℕ → List ℕ → ℕ
atoi n [] = n
atoi n (c ∷ cs) = atoi (n * 10 + (c - b'0')) cs

abbrev pub is_st : JobState → Bool
is_st st = true
is_st _ = false

-- The end of `do_bgfg`, from the job's slot on. `killed` is whether `kill` succeeds.
pub resume : Bool → List ℕ → ℕ → Job → Shell → Outcome
unfolding same
resume killed name slot job sh =
    let continued = set sh.list.jobs slot (record job { state = bg }) in
    let brought = set sh.list.jobs slot (record job { state = fg }) in
    let signal = kill_group job.pid sigcont ∷ [] in
    if same name bg_word
    then if killed
      then runs (with_jobs sh continued) (resumed job.jid job.pid job.cmdline ∷ signal)
      else exits 1 (resumed job.jid job.pid job.cmdline ∷ signal)
    else if is_st job.state
    then if killed
      then runs (record (with_jobs sh brought) { waiting = some job.pid }) signal
      else exits 1 signal
    else runs (record (with_jobs sh brought) { waiting = some job.pid }) []

abbrev pub resume_at : Bool → List ℕ → Effect → Option ℕ → Shell → Outcome
resume_at killed name missing none sh = runs sh (missing ∷ [])
resume_at killed name missing (some slot) sh = elim (get_elem? sh.list.jobs slot) [
  | none ↦ fault
  | some job ↦ resume killed name slot job sh
]

abbrev pub by_pid : Bool → List ℕ → List ℕ → Shell → Outcome
by_pid killed name arg sh =
    if all_digits arg
    then resume_at killed name (no_such_process (atoi 0 arg)) (getjobpid sh.list.jobs (atoi 0 arg))
        sh
    else runs sh (bad_argument ∷ [])

abbrev pub by_jid : Bool → List ℕ → List ℕ → Shell → Outcome
by_jid killed name digits sh =
    if all_digits digits
    then resume_at killed name (no_such_job (atoi 0 digits))
        (getjobjid sh.list.jobs (atoi 0 digits)) sh
    else runs sh (bad_argument ∷ [])

-- `do_bgfg` on the command's name and the arguments behind it.
pub do_bgfg : Bool → List ℕ → List (List ℕ) → Shell → Outcome
unfolding resume all_digits atoi
do_bgfg killed name [] sh = runs sh (needs_argument name ∷ [])
do_bgfg killed name ([] ∷ args) sh = by_pid killed name [] sh
do_bgfg killed name ((c ∷ cs) ∷ args) sh =
    if c == b'%' then by_jid killed name cs sh else by_pid killed name (c ∷ cs) sh

-- `builtin_cmd`; `none` is its return of 0.
pub builtin_cmd : Bool → List ℕ → List (List ℕ) → Shell → Option Outcome
unfolding do_bgfg
builtin_cmd killed name args sh =
    if same name quit
    then some (exits 0 [])
    else if same name jobs_word
    then some (runs sh (listed (listjobs sh.list.jobs) ∷ []))
    else if same name bg_word
    then some (do_bgfg killed name args sh)
    else if same name fg_word
    then some (do_bgfg killed name args sh)
    else none

-- The parent's side of `eval` after `fork`, whose failure is `none`: the job is added, and the
-- shell waits for it, or prints it when it runs in the background.
abbrev pub launched : Bool → Option ℕ → List ℕ → Bool × JobList → Shell → Outcome
launched background (some pid) cmdline (ok, list) sh =
    let warning = if ok then [] else if pid == 0 then [] else too_many_jobs ∷ [] in
    if background
    then runs (record sh { list = list })
        (warning ++ (started (pid2jid list.jobs pid) (some pid) cmdline ∷ []))
    else runs (record sh { list = list; waiting = some pid }) warning
launched background none cmdline (ok, list) sh =
    if background then runs sh (started 0 none cmdline ∷ []) else runs sh []

abbrev pub pid_of : Option ℕ → ℕ
pid_of none = 0
pid_of (some pid) = pid

pub launch : Bool → Option ℕ → List ℕ → Shell → Outcome
launch background forked cmdline sh =
    launched background forked cmdline
      (addjob sh.list (pid_of forked) (if background then bg else fg) cmdline) sh

pub eval_argv : Bool → Option ℕ → List ℕ → Bool → List (List ℕ) → Shell → Outcome
unfolding builtin_cmd launch
eval_argv killed forked cmdline background [] sh = runs sh []
eval_argv killed forked cmdline background (name ∷ args) sh =
    elim (builtin_cmd killed name args sh) [
      | some outcome ↦ outcome
      | none ↦ launch background forked cmdline sh
    ]

pub eval : Bool → Option ℕ → List ℕ → Shell → Outcome
unfolding eval_argv
eval killed forked cmdline sh = elim (parseline cmdline) [
  | none ↦ fault
  | some (background, argv) ↦ eval_argv killed forked cmdline background argv sh
]

-- The test of `waitfg`'s loop: it ends when the pid is not that of the foreground job.
pub still_waiting : Shell → Bool
still_waiting sh = elim sh.waiting [ none ↦ false | some pid ↦ pid == fgpid sh.list.jobs ]

pub data Status : Type 0 where
  exited : Status
  signaled : ℕ → Status
  stopped_by : ℕ → Status

-- One round of `sigchld_handler`, for what `waitpid` returned.
abbrev pub reap_job : ℕ → Status → Option ℕ → Shell → Outcome
reap_job pid exited slot sh = runs (record sh { list = (deletejob sh.list pid).1 }) []
reap_job pid (signaled sig) none sh = fault
reap_job pid (signaled sig) (some slot) sh = elim (get_elem? sh.list.jobs slot) [
  | none ↦ fault
  | some job ↦
      runs (record sh { list = (deletejob sh.list pid).1 }) (terminated job.jid pid sig ∷ [])
]
reap_job pid (stopped_by sig) none sh = fault
reap_job pid (stopped_by sig) (some slot) sh = elim (get_elem? sh.list.jobs slot) [
  | none ↦ fault
  | some job ↦
      runs (with_jobs sh (set sh.list.jobs slot (record job { state = st })))
        (stopped job.jid pid sig ∷ [])
]

pub reap : ℕ → Status → Shell → Outcome
reap pid status sh = reap_job pid status (getjobpid sh.list.jobs pid) sh

-- The loop of `sigchld_handler`, over what `waitpid` returns until it has no more.
pub sigchld_handler : List (ℕ × Status) → Shell → Outcome
unfolding reap
sigchld_handler [] sh = runs sh []
sigchld_handler ((pid, status) ∷ children) sh = elim (reap pid status sh) [
  | runs sh' out ↦ elim (sigchld_handler children sh') [
    | runs sh'' out' ↦ runs sh'' (out ++ out')
    | exits code out' ↦ exits code (out ++ out')
    | fault ↦ fault
  ]
  | exits code out ↦ exits code out
  | fault ↦ fault
]

-- `sigint_handler` and `sigtstp_handler`: the signal goes to the foreground job's group.
pub sigint_handler : ℕ → Shell → List Effect
sigint_handler sig sh =
    let pid = fgpid sh.list.jobs in if pid == 0 then [] else kill_group pid sig ∷ []

pub sigtstp_handler : ℕ → Shell → List Effect
sigtstp_handler sig sh =
    let pid = fgpid sh.list.jobs in if pid == 0 then [] else kill_group pid sig ∷ []
