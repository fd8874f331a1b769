-- ===== src/Tsh/Tests.antt =====
-- Runs of tsh.c on small inputs, and the theorems at inputs that meet their hypotheses.
use csapp.Common.{
  ℕ, ◌≤◌, ◌≡◌, ◌≢◌, ◌↔◌, ◌⊎◌, refl, true, false, none, some, List, [], ◌∷◌, arith, All, replicate,
}
use csapp.Tsh.Jobs.{fg, bg, JobList, cleared, initjobs, is_fg, addjob, deletejob, getjobpid}
use csapp.Tsh.Jobs.Lists.{fg_count}
use csapp.Tsh.Jobs.Invariant.{IsValid, Added, addjob-Added, Deleted, deletejob-Deleted}
use csapp.Tsh.Parseline.{parseline}
use csapp.Tsh.Parseline.Roundtrip.{command, parseline_overflow}
use csapp.Tsh.Shell.{Shell, fault, eval, reap, exited, signaled}
use csapp.Tsh.Shell.System.{start, Reach_safe, eval-fault_iff, reap-fault_iff}

abbrev empty : JobList
empty = record { jobs = initjobs; nextjid = 1 }

abbrev idle : Shell
idle = record { list = empty; waiting = none }

abbrev ls_word : List ℕ
ls_word = b'l' ∷ b's' ∷ []

abbrev dash : List ℕ
dash = b'-' ∷ b'a' ∷ []

abbrev one_job : JobList
one_job = record {
  jobs = record { pid = 40; jid = 1; state = bg; cmdline = [] } ∷ replicate 15 cleared;
  nextjid = 16;
}

one_job-IsValid : IsValid one_job
one_job-IsValid = record {
  size = refl;
  slots = ground arith;
  unique = ground arith;
  next = omega arith;
}

Reach_safe_example :
    IsValid idle.list
    × (fg_count idle.list.jobs ≤ 1)
    × (((pid : ℕ) × (idle.waiting ≡ some pid)) ⊎ All (λ j. is_fg j.state ≡ false) idle.list.jobs)
Reach_safe_example = Reach_safe start

eval-fault_iff_example :
    (eval true (some 41) (command (ls_word ∷ dash ∷ [])) idle ≡ fault)
    ↔ (parseline (command (ls_word ∷ dash ∷ [])) ≡ none)
eval-fault_iff_example =
    eval-fault_iff true (some 41) (command (ls_word ∷ dash ∷ [])) start refl ((omega arith), refl)

reap-fault_iff_example :
    (reap 41 (signaled 9) idle ≡ fault)
    ↔ ((getjobpid idle.list.jobs 41 ≡ none) × (signaled 9 ≢ exited))
reap-fault_iff_example = reap-fault_iff 41 (signaled 9) idle

addjob-Added_example : Added one_job 41 fg ls_word (addjob one_job 41 fg ls_word)
addjob-Added_example =
    addjob-Added one_job 41 fg ls_word one_job-IsValid (omega arith) (λ e. cc e) refl

deletejob-Deleted_example : Deleted one_job 40 (deletejob one_job 40)
deletejob-Deleted_example = deletejob-Deleted one_job 40 one_job-IsValid (omega arith)

parseline_overflow_example : parseline (command (ls_word ∷ replicate 127 dash)) ≡ none
parseline_overflow_example =
    parseline_overflow ls_word (replicate 127 dash) (omega arith) (omega arith)
