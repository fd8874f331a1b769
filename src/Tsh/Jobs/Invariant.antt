-- ===== src/Tsh/Jobs/Invariant.antt =====
-- The job list against a map from pids to jobs: `addjob` inserts, `deletejob` removes.
use csapp.Common.{
  ℕ, zero, suc, ◌+◌, ◌≤◌, ◌<◌, ◌≡◌, ◌≢◌, ◌↔◌, refl, inl, inr, ◌∙◌, Bool, true, false, none, some,
  List, [], ◌∷◌, ltb, ◌==◌, if◌then◌else◌, length, arith, All, All-replicate, length-replicate,
  replicate, Option-cases,
}
use csapp.Tsh.Jobs.{
  JobState, undef, bg, Job, cleared, max_jobs, initjobs, JobList, fill_slot, clear_slot, next_of,
  addjob, deletejob, maxjid, maxjid_from, pid2jid,
}
use csapp.Tsh.Jobs.Lists.{
  lookup, has_pid, IsSlot, IsUnique, fill_slot-Filled, fill_slot-free, clear_slot-Cleared,
  clear_slot-none, cleared-IsSlot, lookup-none,
}
use csapp.Tsh.Jobs.Slots.{jid_of_pid_lem, All-widen}

pub record IsValid (l : JobList) : Type 0 where
  pub size : length l.jobs ≡ max_jobs
  pub slots : All IsSlot l.jobs
  pub unique : IsUnique l.jobs
  pub next : l.nextjid ≢ 0

IsUnique-initjobs : (n : ℕ) → IsUnique (replicate n cleared)
IsUnique-initjobs zero = tt
IsUnique-initjobs (suc n) = ((λ q. absurd (q refl)), IsUnique-initjobs n)

pub initjobs-IsValid : IsValid (record { jobs = initjobs; nextjid = 1 })
initjobs-IsValid = record {
  size = length-replicate max_jobs cleared;
  slots = All-replicate IsSlot max_jobs cleared cleared-IsSlot;
  unique = IsUnique-initjobs max_jobs;
  next = omega arith;
}

maxjid_from-ge :
    (m : ℕ) (js : List Job) → (m ≤ maxjid_from m js) × All (λ j. j.jid ≤ maxjid_from m js) js
unfolding maxjid_from
maxjid_from-ge m [] = (omega arith, tt)
maxjid_from-ge m (j ∷ js) =
    let r = maxjid_from-ge (if ltb m j.jid then j.jid else m) js in
    (ground (arith, r.0), (ground (arith, r.0), r.1))

abbrev new_job : JobList → ℕ → JobState → List ℕ → Job
new_job l pid state cmdline = record {
  pid = pid;
  jid = l.nextjid;
  state = state;
  cmdline = cmdline;
}

-- The two outcomes of `addjob` for a pid that is not in the list.
pub record Added (l : JobList) (pid : ℕ) (state : JobState) (cmdline : List ℕ) (r : Bool × JobList)
    : Type 0 where
  pub valid : IsValid r.1
  pub when_full : (r.0 ≡ false) ↔ (has_pid 0 l.jobs ≡ false)
  pub unchanged : r.0 ≡ false → r.1 ≡ l
  pub inserted :
      r.0 ≡ true
      → (p : ℕ) → p ≢ 0
      → lookup p r.1.jobs ≡ (
          if pid == p
          then some (record { pid = pid; jid = l.nextjid; state = state; cmdline = cmdline })
          else lookup p l.jobs)

-- For a positive pid that no job has and a state that is not UNDEF, `addjob` fails exactly when
-- all slots are taken, and then changes nothing; else the list maps the pid to the new job, with
-- the next job ID, and every other pid as before. It keeps the list valid either way.
pub addjob-Added :
    (l : JobList) (pid : ℕ) (state : JobState) (cmdline : List ℕ)
    → IsValid l
    → pid ≢ 0
    → state ≢ undef
    → has_pid pid l.jobs ≡ false
    → Added l pid state cmdline (addjob l pid state cmdline)
unfolding addjob
addjob-Added l pid state cmdline v n s h =
    elim (Option-cases (fill_slot (new_job l pid state cmdline) l.jobs)) [
      | inl e ↦
          rw ((not_zero pid n), e)
            (record {
              valid = v;
              when_full =
                  ((λ _. (fill_slot-free (new_job l pid state cmdline) l.jobs).0 e), (λ _. refl));
              unchanged = λ _. refl;
              inserted = λ f. absurd (ground arith);
            })
      | inr (js, e) ↦
          let f = fill_slot-Filled (new_job l pid state cmdline) l.jobs n h e in
          rw ((not_zero pid n), e)
            (record {
              valid = record {
                size = f.size ∙ v.size;
                slots = f.slots v.slots ((λ z. absurd (n z)), (λ _. (v.next, s)));
                unique = f.unique v.unique;
                next = ground arith;
              };
              when_full = (
                (λ g. absurd (ground arith)),
                (λ g.
                    absurd
                      (ground (arith, (fill_slot-free (new_job l pid state cmdline) l.jobs).1 g))),
              );
              unchanged = λ g. absurd (ground arith);
              inserted = λ _. f.found;
            })
    ]
  where
    not_zero : (p : ℕ) → p ≢ 0 → (p == 0) ≡ false
    not_zero p q = ground arith

-- `maxjid` is the largest job ID.
jid-lt-maxjid : (js : List Job) → All (λ j. j.jid < maxjid js + 1) js
unfolding maxjid
jid-lt-maxjid js =
    All-widen (λ j. j.jid ≤ maxjid_from 0 js) (λ j. j.jid < maxjid_from 0 js + 1)
      (λ j h. omega arith) js (maxjid_from-ge 0 js).1

-- The two outcomes of `deletejob`.
pub record Deleted (l : JobList) (pid : ℕ) (r : Bool × JobList) : Type 0 where
  pub valid : IsValid r.1
  pub when_absent : (r.0 ≡ false) ↔ (has_pid pid l.jobs ≡ false)
  pub unchanged : r.0 ≡ false → r.1 ≡ l
  pub removed : (p : ℕ) → p ≢ 0 → lookup p r.1.jobs ≡ (if p == pid then none else lookup p l.jobs)
  pub next_is_new : r.0 ≡ true → All (λ j. j.jid < r.1.nextjid) r.1.jobs

-- For a positive pid, `deletejob` returns 0 exactly when no job has it, and then changes nothing;
-- else the list maps that pid to no job and every other as before, and the next job ID is above
-- all that are left. It keeps the list valid either way.
pub deletejob-Deleted :
    (l : JobList) (pid : ℕ) → IsValid l → pid ≢ 0 → Deleted l pid (deletejob l pid)
unfolding deletejob
deletejob-Deleted l pid v n = elim (Option-cases (clear_slot pid l.jobs)) [
  | inl e ↦
      let absent = (clear_slot-none pid l.jobs).0 e in
      rw (not_zero pid n, e)
        (record {
          valid = v;
          when_absent = ((λ _. absent), (λ _. refl));
          unchanged = λ _. refl;
          removed = λ p q. ground (arith, lookup-none pid l.jobs absent);
          next_is_new = λ f. absurd (ground arith);
        })
  | inr (js, e) ↦
      let c = clear_slot-Cleared pid l.jobs n e in
      rw (not_zero pid n, e)
        (record {
          valid = record {
            size = c.size ∙ v.size;
            slots = c.slots v.slots;
            unique = c.unique v.unique;
            next = omega arith;
          };
          when_absent = (
            (λ g. absurd (ground arith)),
            (λ g. absurd (ground (arith, (clear_slot-none pid l.jobs).1 g))),
          );
          unchanged = λ g. absurd (ground arith);
          removed = c.found v.unique;
          next_is_new = λ _. jid-lt-maxjid js;
        })
]
  where
    not_zero : (p : ℕ) → p ≢ 0 → (p == 0) ≡ false
    not_zero p q = ground arith

-- The job that was added is the one that its pid's job ID names.
pub pid2jid-addjob :
    (l : JobList) (pid : ℕ) (state : JobState) (cmdline : List ℕ)
    → IsValid l
    → pid ≢ 0
    → state ≢ undef
    → has_pid pid l.jobs ≡ false
    → (addjob l pid state cmdline).0 ≡ true
    → pid2jid (addjob l pid state cmdline).1.jobs pid ≡ l.nextjid
unfolding pid2jid
pid2jid-addjob l pid state cmdline v n s h e =
    let a = addjob-Added l pid state cmdline v n s h in
    let found : lookup pid (addjob l pid state cmdline).1.jobs
        ≡ some (new_job l pid state cmdline) =
      a.inserted e pid n ∙ ground arith in
    ground (arith, jid_of_pid_lem pid (addjob l pid state cmdline).1.jobs found)

nextjid-addjob :
    (l : JobList) (pid : ℕ) (state : JobState) (cmdline : List ℕ)
    → (addjob l pid state cmdline).0 ≡ true
    → (addjob l pid state cmdline).1.nextjid ≡ next_of l.nextjid
unfolding addjob
nextjid-addjob l pid state cmdline e = ground arith

-- Job IDs do not stay unique. When the job with ID 1 is still there, the next ID is MAXJOBS and
-- two more jobs are added, the second of them gets ID 1 too.
pub addjob_repeats_jid :
    (l : JobList) (p q r : ℕ) (first : Job) (cmdline : List ℕ)
    → IsValid l
    → l.nextjid ≡ max_jobs
    → p ≢ 0
    → q ≢ 0
    → r ≢ 0
    → p ≢ q
    → p ≢ r
    → q ≢ r
    → lookup p l.jobs ≡ some first
    → first.jid ≡ 1
    → has_pid q l.jobs ≡ false
    → has_pid r (addjob l q bg cmdline).1.jobs ≡ false
    → (addjob l q bg cmdline).0 ≡ true
    → let l' = (addjob l q bg cmdline).1 in
      (addjob l' r bg cmdline).0 ≡ true
      → (pid2jid (addjob l' r bg cmdline).1.jobs p ≡ 1)
        × (pid2jid (addjob l' r bg cmdline).1.jobs r ≡ 1)
unfolding pid2jid
addjob_repeats_jid l p q r first cmdline v e p0 q0 r0 pq pr qr at one hq hr ok ok' =
    let l' = (addjob l q bg cmdline).1 in
    let a = addjob-Added l q bg cmdline v q0 bg_ne hq in
    let b = addjob-Added l' r bg cmdline a.valid r0 bg_ne hr in
    let next : l'.nextjid ≡ 1 = nextjid-addjob l q bg cmdline ok ∙ rw e in
    let found : lookup p (addjob l' r bg cmdline).1.jobs ≡ some first =
      b.inserted ok' p p0 ∙ ground (arith, a.inserted ok p p0) in
    let mine : lookup r (addjob l' r bg cmdline).1.jobs ≡ some (new_job l' r bg cmdline) =
      b.inserted ok' r r0 ∙ ground arith in
    (
      ground (arith, jid_of_pid_lem p (addjob l' r bg cmdline).1.jobs found),
      ground (arith, jid_of_pid_lem r (addjob l' r bg cmdline).1.jobs mine),
    )
  where
    bg_ne : bg ≢ undef
    bg_ne e = cc
