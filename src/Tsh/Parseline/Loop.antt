-- ===== src/Tsh/Parseline/Loop.antt =====
-- The loop of `parseline` ends: every round shortens what is left of the line.
use csapp.Common.{
  ℕ, zero, suc, ◌+◌, ◌≤◌, ◌<◌, ◌≡◌, sym, inl, inr, ◌∙◌, ap, none, some, List, [], ◌∷◌, ◌==◌, length,
  arith, Bool-cases, Option-cases,
}
use csapp.Tsh.Parseline.{skip_spaces, cut_at, next_arg, split_args}

length-skip_spaces : (buf : List ℕ) → length (skip_spaces buf) ≤ length buf
unfolding skip_spaces
length-skip_spaces [] = omega arith
length-skip_spaces (c ∷ cs) = ground (arith, length-skip_spaces cs)

-- The argument, its delimiter and the rest make up the string.
cut_at-length :
    (delim : ℕ) (buf : List ℕ) {arg rest : List ℕ}
    → cut_at delim buf ≡ some (arg, rest)
    → length arg + length rest + 1 ≡ length buf
unfolding cut_at
cut_at-length delim [] e = absurd (cc)
cut_at-length delim (c ∷ cs) {arg} {rest} e = elim (Bool-cases (c == delim)) [
  | inl d ↦ ground arith
  | inr d ↦ elim (Option-cases (cut_at delim cs)) [
    | inl f ↦ absurd (ground arith)
    | inr ((a, r), f) ↦ ground (arith, cut_at-length delim cs {arg = a} {rest = r} f)
  ]
]

next_arg-length :
    (buf : List ℕ) {arg rest : List ℕ}
    → next_arg buf ≡ some (arg, rest)
    → length arg + length rest < length buf
unfolding next_arg
next_arg-length [] e = omega (arith, cut_at-length b' ' [] e)
next_arg-length (c ∷ cs) {arg} {rest} e = elim (Bool-cases (c == 0x27)) [
  | inl q ↦ ground (arith, cut_at-length 0x27 cs {arg = arg} {rest = rest})
  | inr q ↦ ground (arith, cut_at-length b' ' (c ∷ cs) {arg = arg} {rest = rest})
]

split_args-none : (f : ℕ) (buf : List ℕ) → next_arg buf ≡ none → split_args (suc f) buf ≡ []
unfolding split_args
split_args-none f buf e = rw (e, split_args)

pub split_args-some :
    (f : ℕ) (buf : List ℕ) {arg rest : List ℕ}
    → next_arg buf ≡ some (arg, rest)
    → split_args (suc f) buf ≡ arg ∷ split_args f (skip_spaces rest)
unfolding split_args
split_args-some f buf e = rw (e, split_args)

-- With more fuel than the line has bytes the loop ends by its own test, so that more changes
-- nothing.
pub split_args_enough :
    (f g : ℕ) (buf : List ℕ) → length buf < f → length buf < g → split_args f buf ≡ split_args g buf
split_args_enough zero g buf p q = elim p [ ]
split_args_enough (suc f) zero buf p q = elim q [ ]
split_args_enough (suc f) (suc g) buf p q = elim (Option-cases (next_arg buf)) [
  | inl e ↦ split_args-none f buf e ∙ sym (split_args-none g buf e)
  | inr ((arg, rest), e) ↦
      let n = next_arg-length buf e in
      let s = length-skip_spaces rest in
      split_args-some f buf e
      ∙ ap (λ r. arg ∷ r) (split_args_enough f g (skip_spaces rest) (omega arith) (omega arith))
      ∙ sym (split_args-some g buf e)
]

abbrev total_length : List (List ℕ) → ℕ
total_length [] = 0
total_length (a ∷ args) = length a + total_length args

-- The arguments and a delimiter for each fit the line.
split_args_bound :
    (f : ℕ) (buf : List ℕ)
    → total_length (split_args f buf) + length (split_args f buf) ≤ length buf
split_args_bound zero buf = unfold split_args in (omega arith)
split_args_bound (suc f) buf = elim (Option-cases (next_arg buf)) [
  | inl e ↦ rw (split_args-none f buf e) (omega arith)
  | inr ((arg, rest), e) ↦ rw (split_args-some f buf e) (
      omega (
        arith,
        next_arg-length buf e,
        length-skip_spaces rest,
        split_args_bound f (skip_spaces rest),
      ))
]
