-- ===== src/Csim/Access.antt =====
-- What `access_cache` does to the set that it selects.
use csapp.Common.{
  ℕ, ◌<◌, ◌≡◌, ◌≢◌, refl, ◌∙◌, Bool, true, false, not, ◌&&◌, some, none, List, ◌==◌, set, length,
  arith, length-set, Bool-cases, inl, inr,
}
use csapp.Csim.{Line, Log, hit, miss, miss_eviction, filled, probe, age, evict, finish, access_set}
use csapp.Csim.Lines.{
  resident, is_full, WfLines, tag_at, probe_log, probe-log, length-probe, resident-probe,
  WfLines-probe, probe-full, length-age, resident-age, full-age, tag_at-age, WfLines-age,
  resident-set, WfLines-set,
}
use csapp.Csim.Victim.{IsVictim, age-IsVictim}

-- The log, by whether the tag was held and the set full.
abbrev pub expected_log : Bool → Bool → Log
expected_log true full = hit
expected_log false true = miss_eviction
expected_log false false = miss

pub record Accessed (t : ℕ) (ls : List Line) (log : Log) (ls' : List Line) : Type 0 where
  pub same_length : length ls' ≡ length ls
  pub well_formed : WfLines ls'
  pub logged : log ≡ expected_log (resident t ls) (is_full ls)
  pub held : resident t ls' ≡ true
  pub others_kept : log ≢ miss_eviction → (u : ℕ) → u ≢ t → resident u ls' ≡ resident u ls
  pub victim_lost :
      log ≡ miss_eviction
      → (v : ℕ) × IsVictim ls v
        × ((u : ℕ) → u ≢ t → resident u ls' ≡ (resident u ls && not (u == tag_at ls v)))

module _ (t : ℕ) (ls : List Line) (w : WfLines ls) (nonempty : 0 < length ls) where
  access_set_kept :
      (log : Log)
      → (probe t ls).1 ≡ some log
      → probe_log (resident t ls) (is_full ls) ≡ some log
      → (ls' : List Line) × (access_set t ls ≡ some (log, ls')) × Accessed t ls log ls'
  unfolding access_set finish
  access_set_kept log e c = (
    (age 0 none (probe t ls).0).1,
    rw e,
    record {
      same_length = length-age 0 none (probe t ls).0 ∙ length-probe t ls;
      well_formed = WfLines-age 0 none (probe t ls).0 (WfLines-probe t ls w);
      logged = ground arith;
      held = resident-age t 0 none (probe t ls).0 ∙ ground (arith, resident-probe t t ls w);
      others_kept =
          λ n u ne. resident-age u 0 none (probe t ls).0 ∙ ground (arith, resident-probe t u ls w);
      victim_lost = λ f. absurd (ground arith);
    },
  )

  access_set_evicts :
      resident t ls ≡ false
      → is_full ls ≡ true
      → (ls' : List Line) × (access_set t ls ≡ some (miss_eviction, ls'))
        × Accessed t ls miss_eviction ls'
  unfolding access_set finish evict
  access_set_evicts r f =
      let (v, e, victim) = age-IsVictim ls nonempty in
      let aged : List Line = (age 0 none ls).1 in
      let wf : WfLines aged = WfLines-age 0 none ls w in
      let full : is_full aged ≡ true = full-age 0 none ls ∙ f in
      let absent : resident t aged ≡ false = resident-age t 0 none ls ∙ r in
      let inside : v < length aged = omega (arith, length-age 0 none ls, victim.in_range) in
      (
        set aged v (filled t),
        rw (probe-full t ls w f r, probe-log t ls w, r, f, e),
        record {
          same_length = length-set aged v (filled t) ∙ length-age 0 none ls;
          well_formed = WfLines-set aged v t wf full inside absent;
          logged = rw (r, f);
          held = resident-set aged v t t wf full inside absent ∙ ground arith;
          others_kept = λ n. absurd (n refl);
          victim_lost = λ _. (
            v,
            victim,
            λ u ne. ground (
              arith,
              resident-set aged v t u wf full inside absent,
              resident-age u 0 none ls,
              tag_at-age v 0 none ls,
            ),
          );
        },
      )

  -- On a well-formed set that has lines, an access returns: it logs a hit exactly when the tag was
  -- held, and an eviction exactly when it was not and the set was full; the set stays well-formed,
  -- has as many lines, and holds the tag; every other tag stays, but in an eviction that of the
  -- first line with the biggest counter, which goes.
  pub access_set-Accessed :
      (log : Log) × (ls' : List Line) × (access_set t ls ≡ some (log, ls')) × Accessed t ls log ls'
  access_set-Accessed = elim (Bool-cases (resident t ls)) [
    | inl r ↦ let (a, b, c) = access_set_kept hit (probe-log t ls w ∙ rw r) (rw r) in (hit, a, b, c)
    | inr r ↦ elim (Bool-cases (is_full ls)) [
      | inl f ↦ let (a, b, c) = access_set_evicts r f in (miss_eviction, a, b, c)
      | inr f ↦
          let (a, b, c) = access_set_kept miss (probe-log t ls w ∙ rw (r, f)) (rw (r, f)) in
          (miss, a, b, c)
    ]
  ]
