-- ===== src/Tsh/Shell/Handlers.antt =====
-- Each handler of tsh.c's shell keeps the invariant.
use mathlib.Core.Option.{some-injective}
use mathlib.Core.Path.{subst}
use csapp.Common.{
  ℕ, ◌≡◌, ◌≢◌, refl, inl, inr, Bool, true, false, Option, none, some, List, [], ◌∷◌, if◌then◌else◌,
  arith, Option-cases,
}
use csapp.Tsh.Jobs.{fg, bg, st, deletejob, getjobpid, listjobs}
use csapp.Tsh.Jobs.Slots.{getjobpid_lem, All-addjob, All-deletejob, All-widen}
use csapp.Tsh.Jobs.Invariant.{addjob-Added, deletejob-Deleted}
use csapp.Tsh.Parseline.{parseline}
use csapp.Tsh.Shell.{
  Shell, Outcome, runs, exits, fault, same, bg_word, quit, jobs_word, fg_word, do_bgfg, builtin_cmd,
  launch, eval_argv, listed, eval, Status, exited, signaled, stopped_by, reap,
}
use csapp.Tsh.Shell.Keeps.{Awaited, Inv, IsFresh, Keeps, restated-Inv, do_bgfg-Keeps}

launch-Keeps :
    (background : Bool) (forked : Option ℕ) (cmdline : List ℕ) (sh : Shell)
    → Inv sh
    → sh.waiting ≡ none
    → IsFresh forked sh
    → Keeps (launch background forked cmdline sh)
unfolding launch
launch-Keeps true none cmdline sh inv idle fresh = inv
launch-Keeps false none cmdline sh inv idle fresh = inv
launch-Keeps true (some pid) cmdline sh inv idle fresh = record {
  valid = (addjob-Added sh.list pid bg cmdline inv.valid fresh.0 (λ e. cc e) fresh.1).valid;
  awaited =
      All-addjob (Awaited sh.waiting) sh.list pid bg cmdline (λ f. absurd (ground arith))
        inv.awaited;
}
launch-Keeps false (some pid) cmdline sh inv idle fresh = record {
  valid = (addjob-Added sh.list pid fg cmdline inv.valid fresh.0 (λ e. cc e) fresh.1).valid;
  awaited =
      All-addjob (Awaited (some pid)) sh.list pid fg cmdline (λ f. refl)
        (All-widen (Awaited sh.waiting) (Awaited (some pid)) (λ j a f. absurd (ground (arith, a f)))
          sh.list.jobs inv.awaited);
}

builtin_cmd-Keeps :
    (killed : Bool) (name : List ℕ) (args : List (List ℕ)) (sh : Shell) {r : Outcome}
    → Inv sh
    → sh.waiting ≡ none
    → builtin_cmd killed name args sh ≡ some r
    → Keeps r
unfolding builtin_cmd
builtin_cmd-Keeps killed name args sh {r} inv idle e =
    choose (same name quit) (same name jobs_word) (same name bg_word) (same name fg_word) e
  where
    ran : Keeps (do_bgfg killed name args sh)
    ran = do_bgfg-Keeps killed name args sh inv idle

    choose :
        (q j b f : Bool)
        → (if q
            then some (exits 0 [])
            else if j
            then some (runs sh (listed (listjobs sh.list.jobs) ∷ []))
            else if b
            then some (do_bgfg killed name args sh)
            else if f
            then some (do_bgfg killed name args sh)
            else none)
          ≡ some r
        → Keeps r
    choose true j b f h = subst Keeps (some-injective _ r h) tt
    choose false true b f h = subst Keeps (some-injective _ r h) inv
    choose false false true f h = subst Keeps (some-injective _ r h) ran
    choose false false false true h = subst Keeps (some-injective _ r h) ran
    choose false false false false h = absurd (cc)

eval_argv-Keeps :
    (killed : Bool) (forked : Option ℕ) (cmdline : List ℕ) (background : Bool)
    (argv : List (List ℕ)) (sh : Shell)
    → Inv sh
    → sh.waiting ≡ none
    → IsFresh forked sh
    → Keeps (eval_argv killed forked cmdline background argv sh)
unfolding eval_argv
eval_argv-Keeps killed forked cmdline background [] sh inv idle fresh = inv
eval_argv-Keeps killed forked cmdline background (name ∷ args) sh inv idle fresh =
    elim (Option-cases (builtin_cmd killed name args sh)) [
      | inl e ↦ rw (e, Keeps) (launch-Keeps background forked cmdline sh inv idle fresh)
      | inr (r, e) ↦ rw (e, Keeps) (builtin_cmd-Keeps killed name args sh inv idle e)
    ]

pub eval-Keeps :
    (killed : Bool) (forked : Option ℕ) (cmdline : List ℕ) (sh : Shell)
    → Inv sh
    → sh.waiting ≡ none
    → IsFresh forked sh
    → parseline cmdline ≢ none
    → Keeps (eval killed forked cmdline sh)
unfolding eval
eval-Keeps killed forked cmdline sh inv idle fresh fits = elim (Option-cases (parseline cmdline)) [
  | inl e ↦ absurd (fits e)
  | inr ((background, argv), e) ↦
      rw (e, Keeps) (eval_argv-Keeps killed forked cmdline background argv sh inv idle fresh)
]

forget :
    (pid : ℕ) (sh : Shell) → pid ≢ 0 → Inv sh → Inv (record sh { list = (deletejob sh.list pid).1 })
forget pid sh n inv = record {
  valid = (deletejob-Deleted sh.list pid inv.valid n).valid;
  awaited = All-deletejob (Awaited sh.waiting) sh.list pid (λ f. absurd (ground arith)) inv.awaited;
}

pub reap-Keeps :
    (pid : ℕ) (status : Status) (sh : Shell)
    → pid ≢ 0
    → Inv sh
    → reap pid status sh ≢ fault
    → Keeps (reap pid status sh)
unfolding reap
reap-Keeps pid exited sh n inv ok = forget pid sh n inv
reap-Keeps pid (signaled sig) sh n inv ok = elim (Option-cases (getjobpid sh.list.jobs pid)) [
  | inl e ↦ absurd (ok (rw e))
  | inr (slot, e) ↦
      let (j, a, b, c, d) = getjobpid_lem sh.list.jobs pid e in
      rw (e, a, Keeps) (forget pid sh n inv)
]
reap-Keeps pid (stopped_by sig) sh n inv ok = elim (Option-cases (getjobpid sh.list.jobs pid)) [
  | inl e ↦ absurd (ok (rw e))
  | inr (slot, e) ↦
      let (j, a, b, c, d) = getjobpid_lem sh.list.jobs pid e in
      rw (e, a, Keeps)
        (restated-Inv sh sh.waiting st slot inv a (rw c d) (λ f. cc f) (λ k q p. p)
          (λ f. absurd (ground arith)))
]
