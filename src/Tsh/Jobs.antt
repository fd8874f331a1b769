-- ===== src/Tsh/Jobs.antt =====
-- shelllab/tsh.c: the job list and the routines that manipulate it. A pointer to a job is the
-- index of its slot, and NULL is `none`. A pid is a positive number: 0 marks a free slot, and the
-- guards `pid < 1` and `jid < 1` are tests for 0.
pub mod Lists
pub mod Slots
pub mod Invariant
use mathlib.Core.Option
use csapp.Common.{
  ℕ, zero, suc, ◌+◌, Bool, true, false, Option, none, some, List, [], ◌∷◌, ltb, ◌==◌, if◌then◌else◌,
  replicate,
}

pub data JobState : Type 0 where
  undef fg bg st : JobState

pub record Job : Type 0 where
  pub pid : ℕ
  pub jid : ℕ
  pub state : JobState
  pub cmdline : List ℕ

abbrev pub max_jobs : ℕ
max_jobs = 16

-- `clearjob`
abbrev pub cleared : Job
cleared = record { pid = 0; jid = 0; state = undef; cmdline = [] }

abbrev pub initjobs : List Job
initjobs = replicate max_jobs cleared

abbrev pub is_fg : JobState → Bool
is_fg fg = true
is_fg _ = false

-- The globals `jobs` and `nextjid`.
pub record JobList : Type 0 where
  pub jobs : List Job
  pub nextjid : ℕ

pub maxjid_from : ℕ → List Job → ℕ
maxjid_from m [] = m
maxjid_from m (j ∷ js) = maxjid_from (if ltb m j.jid then j.jid else m) js

pub maxjid : List Job → ℕ
unfolding maxjid_from
maxjid js = maxjid_from 0 js

-- The loop of `addjob`: the first free slot takes the job; `none` when there is none.
pub fill_slot : Job → List Job → Option (List Job)
fill_slot new [] = none
fill_slot new (j ∷ js) =
    let rest = Option.map (λ js'. j ∷ js') (fill_slot new js) in
    if j.pid == 0 then some (new ∷ js) else rest

abbrev pub next_of : ℕ → ℕ
next_of jid = if ltb max_jobs (jid + 1) then 1 else jid + 1

abbrev added : JobList → Option (List Job) → Bool × JobList
added l none = (false, l)
added l (some js) = (true, record { jobs = js; nextjid = next_of l.nextjid })

-- `strcpy` to `cmdline[MAXLINE]` needs a command line of fewer than 1024 bytes, which `parseline` has
-- made sure of before `eval` calls it.
unfoldable pub addjob : JobList → ℕ → JobState → List ℕ → Bool × JobList
unfolding fill_slot
addjob l pid state cmdline =
    if pid == 0
    then (false, l)
    else added l
        (fill_slot (record { pid = pid; jid = l.nextjid; state = state; cmdline = cmdline }) l.jobs)

-- The loop of `deletejob`: the first slot with the pid is cleared.
pub clear_slot : ℕ → List Job → Option (List Job)
clear_slot pid [] = none
clear_slot pid (j ∷ js) =
    let rest = Option.map (λ js'. j ∷ js') (clear_slot pid js) in
    if j.pid == pid then some (cleared ∷ js) else rest

abbrev deleted : JobList → Option (List Job) → Bool × JobList
deleted l none = (false, l)
deleted l (some js) = (true, record { jobs = js; nextjid = maxjid js + 1 })

pub deletejob : JobList → ℕ → Bool × JobList
unfolding clear_slot maxjid
deletejob l pid = if pid == 0 then (false, l) else deleted l (clear_slot pid l.jobs)

pub fgpid : List Job → ℕ
fgpid [] = 0
fgpid (j ∷ js) = if is_fg j.state then j.pid else fgpid js

pub find_pid : ℕ → List Job → Option ℕ
find_pid pid [] = none
find_pid pid (j ∷ js) = if j.pid == pid then some 0 else Option.map suc (find_pid pid js)

pub getjobpid : List Job → ℕ → Option ℕ
unfolding find_pid
getjobpid js pid = if pid == 0 then none else find_pid pid js

pub find_jid : ℕ → List Job → Option ℕ
find_jid jid [] = none
find_jid jid (j ∷ js) = if j.jid == jid then some 0 else Option.map suc (find_jid jid js)

pub getjobjid : List Job → ℕ → Option ℕ
unfolding find_jid
getjobjid js jid = if jid == 0 then none else find_jid jid js

pub jid_of_pid : ℕ → List Job → ℕ
jid_of_pid pid [] = 0
jid_of_pid pid (j ∷ js) = if j.pid == pid then j.jid else jid_of_pid pid js

pub pid2jid : List Job → ℕ → ℕ
unfolding jid_of_pid
pid2jid js pid = if pid == 0 then 0 else jid_of_pid pid js

-- The jobs that `listjobs` prints, in its order.
pub listjobs : List Job → List Job
listjobs [] = []
listjobs (j ∷ js) = if j.pid == 0 then listjobs js else j ∷ listjobs js
