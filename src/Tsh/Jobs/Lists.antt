-- ===== src/Tsh/Jobs/Lists.antt =====
-- The job list as a map from pids to jobs: what the loops over the slots do to it.
use csapp.Common.{
  ℕ, suc, ◌+◌, ◌≤◌, ◌≡◌, ◌≢◌, refl, inl, inr, ap, Bool, false, not, ◌&&◌, ◌||◌, Option, none, some,
  List, [], ◌∷◌, ◌==◌, if◌then◌else◌, length, arith, All, Option-cases, ◌↔◌,
}
use mathlib.Core.Path.{subst}
use native.Mathlib.Decide.{ℕ_discrete}
use csapp.Tsh.Jobs.{undef, Job, cleared, is_fg, fill_slot, clear_slot}

-- The job of a pid, if a slot holds it.
unfoldable pub lookup : ℕ → List Job → Option Job
lookup p [] = none
lookup p (j ∷ js) = if j.pid == p then some j else lookup p js

abbrev pub has_pid : ℕ → List Job → Bool
has_pid p [] = false
has_pid p (j ∷ js) = j.pid == p || has_pid p js

abbrev pub fg_count : List Job → ℕ
fg_count [] = 0
fg_count (j ∷ js) = (if is_fg j.state then 1 else 0) + fg_count js

-- A free slot is cleared, and a taken one has a job ID and a state.
abbrev pub IsSlot : Job → Type 0
IsSlot j = (j.pid ≡ 0 → j ≡ cleared) × (j.pid ≢ 0 → (j.jid ≢ 0) × (j.state ≢ undef))

-- No two slots hold the same pid.
abbrev pub IsUnique : List Job → Type 0
IsUnique [] = Unit
IsUnique (j ∷ js) = (j.pid ≢ 0 → has_pid j.pid js ≡ false) × IsUnique js

pub lookup-none : (p : ℕ) (js : List Job) → has_pid p js ≡ false → lookup p js ≡ none
unfolding lookup
lookup-none p [] h = refl
lookup-none p (j ∷ js) h = ground (arith, lookup-none p js)

-- What `fill_slot` leaves, when it finds a slot for a pid that is not yet there.
pub record Filled (new : Job) (js js' : List Job) : Type 0 where
  pub size : length js' ≡ length js
  pub slots : All IsSlot js → IsSlot new → All IsSlot js'
  pub pids : (p : ℕ) → p ≢ 0 → has_pid p js' ≡ (has_pid p js || new.pid == p)
  pub unique : IsUnique js → IsUnique js'
  pub found : (p : ℕ) → p ≢ 0 → lookup p js' ≡ (if new.pid == p then some new else lookup p js)
  pub foreground : All IsSlot js → fg_count js' ≡ fg_count js + (if is_fg new.state then 1 else 0)

module _ (new j : Job) (js : List Job) where
  Filled-here :
      new.pid ≢ 0 → has_pid new.pid js ≡ false → j.pid ≡ 0 → Filled new (j ∷ js) (new ∷ js)
  unfolding lookup
  Filled-here n h z = record {
    size = refl;
    slots = λ s w. (w, s.1);
    pids = λ p q. ground arith;
    unique = λ u. ((λ q. h), u.1);
    found = λ p q. ground arith;
    foreground = λ s. ground (arith, s.0.0 z);
  }

  Filled-there :
      {t : List Job}
      → has_pid new.pid (j ∷ js) ≡ false
      → j.pid ≢ 0
      → Filled new js t
      → Filled new (j ∷ js) (j ∷ t)
  unfolding lookup
  Filled-there {t} h z f = record {
    size = ap suc f.size;
    slots = λ s w. (s.0, f.slots s.1 w);
    pids = λ p q. ground (arith, f.pids p q);
    unique = λ u. ((λ q. ground (arith, f.pids j.pid q, u.0 q)), f.unique u.1);
    found = λ p q. ground (arith, f.found p q);
    foreground = λ s. omega (arith, f.foreground s.1);
  }

pub fill_slot-Filled :
    (new : Job) (js : List Job) {js' : List Job}
    → new.pid ≢ 0
    → has_pid new.pid js ≡ false
    → fill_slot new js ≡ some js'
    → Filled new js js'
unfolding fill_slot
fill_slot-Filled new [] n h e = cc
fill_slot-Filled new (j ∷ js) {js'} n h e = elim (ℕ_discrete j.pid 0) [
  | yes z ↦
      let same : new ∷ js ≡ js' = ground arith in
      subst (λ t. Filled new (j ∷ js) t) same (Filled-here new j js n (ground arith) z)
  | no z ↦ elim (Option-cases (fill_slot new js)) [
    | inl f ↦ absurd (ground arith)
    | inr (t, f) ↦
        let same : j ∷ t ≡ js' = ground arith in
        subst (λ t. Filled new (j ∷ js) t) same
          (Filled-there new j js h z (fill_slot-Filled new js n (ground arith) f))
  ]
]

-- `fill_slot` finds a slot exactly when one is free.
pub fill_slot-free :
    (new : Job) (js : List Job) → (fill_slot new js ≡ none) ↔ (has_pid 0 js ≡ false)
unfolding fill_slot
fill_slot-free new [] = (λ e. refl, λ e. refl)
fill_slot-free new (j ∷ js) = ground (arith, fill_slot-free new js)

-- What `clear_slot` leaves, when it finds the pid.
pub record Cleared (pid : ℕ) (js js' : List Job) : Type 0 where
  pub size : length js' ≡ length js
  pub slots : All IsSlot js → All IsSlot js'
  pub pids : IsUnique js → (p : ℕ) → p ≢ 0 → has_pid p js' ≡ (has_pid p js && not (p == pid))
  pub unique : IsUnique js → IsUnique js'
  pub found :
      IsUnique js → (p : ℕ) → p ≢ 0 → lookup p js' ≡ (if p == pid then none else lookup p js)
  pub foreground : fg_count js' ≤ fg_count js

pub cleared-IsSlot : IsSlot cleared
cleared-IsSlot = (λ e. refl, λ e. absurd (e refl))

module _ (pid : ℕ) (n : pid ≢ 0) (j : Job) (js : List Job) where
  Cleared-here : j.pid ≡ pid → Cleared pid (j ∷ js) (cleared ∷ js)
  unfolding lookup
  Cleared-here e = record {
    size = refl;
    slots = λ s. (cleared-IsSlot, s.1);
    pids = λ u p q. ground (arith, u.0 (rw e n));
    unique = λ u. ((λ z. absurd (z refl)), u.1);
    found = λ u p q. ground (arith, u.0 (rw e n), lookup-none p js);
    foreground = omega arith;
  }

  Cleared-there : {t : List Job} → j.pid ≢ pid → Cleared pid js t → Cleared pid (j ∷ js) (j ∷ t)
  unfolding lookup
  Cleared-there {t} e c = record {
    size = ap suc c.size;
    slots = λ s. (s.0, c.slots s.1);
    pids = λ u p q. ground (arith, c.pids u.1 p q);
    unique = λ u. ((λ q. ground (arith, c.pids u.1 j.pid q, u.0 q)), c.unique u.1);
    found = λ u p q. ground (arith, c.found u.1 p q);
    foreground = omega (arith, c.foreground);
  }

pub clear_slot-Cleared :
    (pid : ℕ) (js : List Job) {js' : List Job}
    → pid ≢ 0
    → clear_slot pid js ≡ some js'
    → Cleared pid js js'
unfolding clear_slot
clear_slot-Cleared pid [] n e = cc
clear_slot-Cleared pid (j ∷ js) {js'} n e = elim (ℕ_discrete j.pid pid) [
  | yes z ↦
      let same : cleared ∷ js ≡ js' = ground arith in
      subst (λ t. Cleared pid (j ∷ js) t) same (Cleared-here pid n j js z)
  | no z ↦ elim (Option-cases (clear_slot pid js)) [
    | inl f ↦ absurd (ground arith)
    | inr (t, f) ↦
        let same : j ∷ t ≡ js' = ground arith in
        subst (λ t. Cleared pid (j ∷ js) t) same
          (Cleared-there pid n j js z (clear_slot-Cleared pid js n f))
  ]
]

pub clear_slot-none :
    (pid : ℕ) (js : List Job) → (clear_slot pid js ≡ none) ↔ (has_pid pid js ≡ false)
unfolding clear_slot
clear_slot-none pid [] = (λ e. refl, λ e. refl)
clear_slot-none pid (j ∷ js) = ground (arith, clear_slot-none pid js)
