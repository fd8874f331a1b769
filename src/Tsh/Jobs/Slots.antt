-- ===== src/Tsh/Jobs/Slots.antt =====
-- The slot that a lookup finds, a change of its state, and what holds of every slot.
use mathlib.Core.Path.{subst}
use native.Mathlib.Decide.{ℕ_discrete}
use csapp.Common.{
  ℕ, zero, suc, ◌≤◌, ◌≡◌, ◌≢◌, ◌⊎◌, refl, inl, inr, ◌∙◌, ap, true, false, none, some, List, [], ◌∷◌,
  ◌==◌, arith, All, get_elem?, set, Bool-cases, Option-cases,
}
use csapp.Tsh.Jobs.{
  JobState, Job, cleared, is_fg, fill_slot, clear_slot, fgpid, find_pid, find_jid, jid_of_pid,
  getjobpid, getjobjid, JobList, addjob, deletejob,
}
use csapp.Tsh.Jobs.Lists.{lookup, has_pid, fg_count, IsSlot, IsUnique}

-- The slot found holds the job of the pid.
find_pid_lem :
    (p : ℕ) (js : List Job) {i : ℕ}
    → find_pid p js ≡ some i
    → (j : Job) × (get_elem? js i ≡ some j) × (lookup p js ≡ some j) × (j.pid ≡ p)
unfolding find_pid lookup
find_pid_lem p [] e = absurd (cc)
find_pid_lem p (j ∷ js) {i} e = elim (ℕ_discrete j.pid p) [
  | yes z ↦
      let same : 0 ≡ i = ground arith in
      (j, subst (λ k. get_elem? (j ∷ js) k ≡ some j) same refl, ground arith, z)
  | no z ↦ elim (Option-cases (find_pid p js)) [
    | inl f ↦ absurd (ground arith)
    | inr (k, f) ↦
        let same : suc k ≡ i = ground arith in
        let (j', a, b, c) = find_pid_lem p js f in
        (j', subst (λ k. get_elem? (j ∷ js) k ≡ some j') same a, ground arith, c)
  ]
]

find_pid-none : (p : ℕ) (js : List Job) → find_pid p js ≡ none → has_pid p js ≡ false
unfolding find_pid
find_pid-none p [] e = refl
find_pid-none p (j ∷ js) e = ground (arith, find_pid-none p js)

find_jid_lem :
    (n : ℕ) (js : List Job) {i : ℕ}
    → find_jid n js ≡ some i
    → (j : Job) × (get_elem? js i ≡ some j) × (j.jid ≡ n)
unfolding find_jid
find_jid_lem n [] e = absurd (cc)
find_jid_lem n (j ∷ js) {i} e = elim (ℕ_discrete j.jid n) [
  | yes z ↦
      let same : 0 ≡ i = ground arith in
      (j, subst (λ k. get_elem? (j ∷ js) k ≡ some j) same refl, z)
  | no z ↦ elim (Option-cases (find_jid n js)) [
    | inl f ↦ absurd (ground arith)
    | inr (k, f) ↦
        let same : suc k ≡ i = ground arith in
        let (j', a, c) = find_jid_lem n js f in
        (j', subst (λ k. get_elem? (j ∷ js) k ≡ some j') same a, c)
  ]
]

pub jid_of_pid_lem :
    (p : ℕ) (js : List Job) {job : Job} → lookup p js ≡ some job → jid_of_pid p js ≡ job.jid
unfolding jid_of_pid lookup
jid_of_pid_lem p [] e = absurd (cc)
jid_of_pid_lem p (j ∷ js) {job} e = ground (arith, jid_of_pid_lem p js {job = job})

-- What holds of every slot.
module _ (P : Job → Type 0) where
  All-fill_slot :
      (new : Job) (js : List Job) {js' : List Job}
      → P new
      → All P js
      → fill_slot new js ≡ some js'
      → All P js'
  unfolding fill_slot
  All-fill_slot new [] w a e = absurd (cc)
  All-fill_slot new (j ∷ js) {js'} w a e = elim (ℕ_discrete j.pid 0) [
    | yes z ↦ let same : new ∷ js ≡ js' = ground arith in subst (All P) same (w, a.1)
    | no z ↦ elim (Option-cases (fill_slot new js)) [
      | inl f ↦ absurd (ground arith)
      | inr (t, f) ↦
          let same : j ∷ t ≡ js' = ground arith in
          subst (All P) same (a.0, All-fill_slot new js w a.1 f)
    ]
  ]

  All-clear_slot :
      (pid : ℕ) (js : List Job) {js' : List Job}
      → P cleared
      → All P js
      → clear_slot pid js ≡ some js'
      → All P js'
  unfolding clear_slot
  All-clear_slot pid [] w a e = absurd (cc)
  All-clear_slot pid (j ∷ js) {js'} w a e = elim (ℕ_discrete j.pid pid) [
    | yes z ↦ let same : cleared ∷ js ≡ js' = ground arith in subst (All P) same (w, a.1)
    | no z ↦ elim (Option-cases (clear_slot pid js)) [
      | inl f ↦ absurd (ground arith)
      | inr (t, f) ↦
          let same : j ∷ t ≡ js' = ground arith in
          subst (All P) same (a.0, All-clear_slot pid js w a.1 f)
    ]
  ]

  pub All-widen :
      (Q : Job → Type 0) → ((j : Job) → P j → Q j) → (js : List Job) → All P js → All Q js
  All-widen Q f [] a = tt
  All-widen Q f (j ∷ js) a = (f j a.0, All-widen Q f js a.1)

  All-others :
      (Q : Job → Type 0) (js : List Job) (p : ℕ)
      → has_pid p js ≡ false
      → ((j : Job) → j.pid ≢ p → P j → Q j)
      → All P js
      → All Q js
  All-others Q [] p h f a = tt
  All-others Q (j ∷ js) p h f a = (f j (ground arith) a.0, All-others Q js p (ground arith) f a.1)

has_pid-get_elem? :
    (js : List Job) (i : ℕ) {job : Job} → get_elem? js i ≡ some job → has_pid job.pid js ≡ true
has_pid-get_elem? [] i e = absurd (cc)
has_pid-get_elem? (j ∷ js) zero e = ground arith
has_pid-get_elem? (j ∷ js) (suc i) e = ground (arith, has_pid-get_elem? js i e)

-- A change of the state of the job in slot `i`.
module _ (s : JobState) where
  abbrev pub restated : List Job → ℕ → Job → List Job
  restated js i job = set js i (record job { state = s })

  has_pid-restated :
      (p : ℕ) (js : List Job) (i : ℕ) {job : Job}
      → get_elem? js i ≡ some job
      → has_pid p (restated js i job) ≡ has_pid p js
  has_pid-restated p [] i e = refl
  has_pid-restated p (j ∷ js) zero e = ground arith
  has_pid-restated p (j ∷ js) (suc i) e = ground (arith, has_pid-restated p js i e)

  pub IsUnique-restated :
      (js : List Job) (i : ℕ) {job : Job}
      → get_elem? js i ≡ some job
      → IsUnique js
      → IsUnique (restated js i job)
  IsUnique-restated [] i e u = u
  IsUnique-restated (j ∷ js) zero e u = ground arith
  IsUnique-restated (j ∷ js) (suc i) e u =
      ((λ q. has_pid-restated j.pid js i e ∙ u.0 q), IsUnique-restated js i e u.1)

  -- The other slots keep what holds of them.
  pub All-restated :
      (P Q : Job → Type 0) (js : List Job) (i : ℕ) {job : Job}
      → get_elem? js i ≡ some job
      → IsUnique js
      → job.pid ≢ 0
      → ((j : Job) → j.pid ≢ job.pid → P j → Q j)
      → Q (record job { state = s })
      → All P js
      → All Q (restated js i job)
  All-restated P Q [] i e u n f w a = tt
  All-restated P Q (j ∷ js) zero {job} e u n f w a =
      let same : j ≡ job = ground arith in
      (w, All-others P Q js job.pid (ground (arith, u.0 (rw same n))) f a.1)
  All-restated P Q (j ∷ js) (suc i) {job} e u n f w a = (
    f j (λ q. absurd (ground (arith, u.0 (rw q n), has_pid-get_elem? js i e))) a.0,
    All-restated P Q js i e u.1 n f w a.1,
  )

pub All-addjob :
    (P : Job → Type 0) (l : JobList) (pid : ℕ) (state : JobState) (cmdline : List ℕ)
    → P (record { pid = pid; jid = l.nextjid; state = state; cmdline = cmdline })
    → All P l.jobs
    → All P (addjob l pid state cmdline).1.jobs
unfolding addjob
All-addjob P l pid state cmdline w a = elim (Bool-cases (pid == 0)) [
  | inl z ↦ rw z a
  | inr z ↦ elim (Option-cases (fill_slot new l.jobs)) [
    | inl e ↦ rw (z, e) a
    | inr (js, e) ↦ rw (z, e) (All-fill_slot P new l.jobs w a e)
  ]
]
  where
    new : Job
    new = record { pid = pid; jid = l.nextjid; state = state; cmdline = cmdline }

pub All-deletejob :
    (P : Job → Type 0) (l : JobList) (pid : ℕ)
    → P cleared
    → All P l.jobs
    → All P (deletejob l pid).1.jobs
unfolding deletejob
All-deletejob P l pid w a = elim (Bool-cases (pid == 0)) [
  | inl z ↦ rw z a
  | inr z ↦ elim (Option-cases (clear_slot pid l.jobs)) [
    | inl e ↦ rw (z, e) a
    | inr (js, e) ↦ rw (z, e) (All-clear_slot P pid l.jobs w a e)
  ]
]

-- A slot that `getjobpid` or `getjobjid` returns holds a job with that pid, or that job ID.
pub getjobpid_lem :
    (js : List Job) (pid : ℕ) {i : ℕ}
    → getjobpid js pid ≡ some i
    → (j : Job) × (get_elem? js i ≡ some j) × (lookup pid js ≡ some j) × (j.pid ≡ pid) × (pid ≢ 0)
unfolding getjobpid
getjobpid_lem js pid {i} e =
    let (j, a, b, c) = find_pid_lem pid js {i = i} (ground arith) in (j, a, b, c, ground arith)

getjobpid-none :
    (js : List Job) (pid : ℕ) → getjobpid js pid ≡ none → pid ≢ 0 → has_pid pid js ≡ false
unfolding getjobpid
getjobpid-none js pid e n = find_pid-none pid js (ground arith)

pub getjobjid_lem :
    (js : List Job) (jid : ℕ) {i : ℕ}
    → getjobjid js jid ≡ some i
    → (j : Job) × (get_elem? js i ≡ some j) × (j.jid ≡ jid) × (jid ≢ 0)
unfolding getjobjid
getjobjid_lem js jid {i} e =
    let (j, a, c) = find_jid_lem jid js {i = i} (ground arith) in (j, a, c, ground arith)

-- What holds of the pid of every foreground job holds of `fgpid`, unless there is none.
pub fgpid_lem :
    (P : ℕ → Type 0) (js : List Job)
    → All (λ j. is_fg j.state ≡ true → P j.pid) js
    → P (fgpid js) ⊎ All (λ j. is_fg j.state ≡ false) js
unfolding fgpid
fgpid_lem P [] a = inr tt
fgpid_lem P (j ∷ js) a = elim (Bool-cases (is_fg j.state)) [
  | inl e ↦ inl (rw e (a.0 e))
  | inr e ↦ elim (fgpid_lem P js a.1) [ inl h ↦ inl (rw e h) | inr h ↦ inr (e, h) ]
]

-- At most one job is in the foreground, if all that are have one pid.
none_foreground :
    (p : ℕ) (js : List Job)
    → All (λ j. is_fg j.state ≡ true → j.pid ≡ p) js
    → has_pid p js ≡ false
    → fg_count js ≡ 0
none_foreground p [] a h = refl
none_foreground p (j ∷ js) a h = ground (arith, none_foreground p js a.1, a.0)

pub one_foreground :
    (p : ℕ) (js : List Job)
    → All IsSlot js
    → IsUnique js
    → All (λ j. is_fg j.state ≡ true → j.pid ≡ p) js
    → fg_count js ≤ 1
one_foreground p [] s u a = omega arith
one_foreground p (j ∷ js) s u a = elim (Bool-cases (is_fg j.state)) [
  | inr e ↦ rw e (omega (arith, one_foreground p js s.1 u.1 a.1))
  | inl e ↦
      let n : j.pid ≢ 0 = λ z. absurd (cc (e, ap (λ (k : Job). is_fg k.state) (s.0.0 z))) in
      let h : has_pid p js ≡ false = rw (← a.0 e) (u.0 n) in
      rw e (omega (arith, none_foreground p js a.1 h))
]
