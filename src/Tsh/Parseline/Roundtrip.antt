-- ===== src/Tsh/Parseline/Roundtrip.antt =====
-- A line that is printed from words parses to those words.
use mathlib.Core.Option
use csapp.Common.{
  ℕ, zero, suc, ◌≤◌, ◌≡◌, ◌≢◌, refl, ◌∙◌, ap, Bool-cases, inl, inr, leb, none, some, List, [], ◌∷◌,
  ◌++◌, length, length-append, arith, All,
}
use csapp.Tsh.Parseline.{
  blank_last, skip_spaces, cut_at, next_arg, split_args, arguments, max_args, parseline, max_line,
}
use csapp.Tsh.Parseline.Loop.{split_args-some}

-- A word has no space and does not begin with a quote.
abbrev pub IsWord : List ℕ → Type 0
IsWord [] = ⊥
IsWord (c ∷ cs) = (c ≢ b' ') × (c ≢ 0x27) × All (λ d. d ≢ b' ') cs

-- The words behind one another, with a space between two and a newline at the end.
unfoldable pub command : List (List ℕ) → List ℕ
command [] = 10 ∷ []
command (a ∷ []) = a ++ (10 ∷ [])
command (a ∷ b ∷ args) = a ++ (b' ' ∷ command (b ∷ args))

abbrev spaced : List (List ℕ) → List ℕ
spaced [] = []
spaced (a ∷ args) = a ++ (b' ' ∷ spaced args)

blank_last-append :
    (xs : List ℕ) (y : ℕ) (ys : List ℕ) {zs : List ℕ}
    → blank_last (y ∷ ys) ≡ some zs
    → blank_last (xs ++ (y ∷ ys)) ≡ some (xs ++ zs)
unfolding blank_last
blank_last-append [] y ys e = e
blank_last-append (x ∷ []) y ys e = rw e
blank_last-append (x ∷ x' ∷ xs) y ys e = rw (blank_last-append (x' ∷ xs) y ys e)

command_cons :
    (args : List (List ℕ)) → All IsWord args → (c : ℕ) × (cs : List ℕ) × (command args ≡ c ∷ cs)
unfolding command
command_cons [] w = (10, [], refl)
command_cons ([] ∷ args) w = absurd w.0
command_cons ((c ∷ cs) ∷ []) w = (c, cs ++ (10 ∷ []), refl)
command_cons ((c ∷ cs) ∷ b ∷ args) w = (c, cs ++ (b' ' ∷ command (b ∷ args)), refl)

blank_last-command :
    (a : List ℕ) (args : List (List ℕ))
    → All IsWord (a ∷ args)
    → blank_last (command (a ∷ args)) ≡ some (spaced (a ∷ args))
unfolding command blank_last
blank_last-command a [] w = blank_last-append a 10 [] refl
blank_last-command a (b ∷ args) w =
    let (c, cs, e) = command_cons (b ∷ args) w.1 in
    blank_last-append a b' ' (command (b ∷ args)) (
      rw (e, blank_last)
        (ap (Option.map (λ r. b' ' ∷ r)) ((rw e at (blank_last-command b args w.1)))))

cut_at-word :
    (xs rest : List ℕ)
    → All (λ d. d ≢ b' ') xs
    → cut_at b' ' (xs ++ (b' ' ∷ rest)) ≡ some (xs, rest)
unfolding cut_at
cut_at-word [] rest w = refl
cut_at-word (x ∷ xs) rest w = ground (arith, cut_at-word xs rest w.1)

next_arg-word : (a rest : List ℕ) → IsWord a → next_arg (a ++ (b' ' ∷ rest)) ≡ some (a, rest)
unfolding next_arg
next_arg-word [] rest w = absurd w
next_arg-word (c ∷ cs) rest w = ground (arith, cut_at-word (c ∷ cs) rest (w.0, w.2))

skip_spaces-spaced :
    (args : List (List ℕ)) → All IsWord args → skip_spaces (spaced args) ≡ spaced args
unfolding skip_spaces
skip_spaces-spaced [] w = refl
skip_spaces-spaced ([] ∷ args) w = absurd w.0
skip_spaces-spaced ((c ∷ cs) ∷ args) w = ground arith

split_args-spaced :
    (f : ℕ) (args : List (List ℕ))
    → All IsWord args
    → length args ≤ f
    → split_args f (spaced args) ≡ args
split_args-spaced zero [] w h = unfold split_args in refl
split_args-spaced zero (a ∷ args) w h = elim h [ ]
split_args-spaced (suc f) [] w h = unfold split_args next_arg cut_at in refl
split_args-spaced (suc f) (a ∷ args) w h =
    split_args-some f (spaced (a ∷ args)) (next_arg-word a (spaced args) w.0)
    ∙ rw (skip_spaces-spaced args w.1)
        (ap (λ r. a ∷ r) (split_args-spaced f args w.1 (omega arith)))

length-spaced : (args : List (List ℕ)) → length args ≤ length (spaced args)
length-spaced [] = omega arith
length-spaced (a ∷ args) =
    omega (arith, length-append {0} a (b' ' ∷ spaced args), length-spaced args)

arguments-spaced : (args : List (List ℕ)) → All IsWord args → arguments (spaced args) ≡ args
unfolding arguments
arguments-spaced args w =
    rw (skip_spaces-spaced args w)
      (split_args-spaced (suc (length (spaced args))) args w (omega (arith, length-spaced args)))

-- A command line of MAXARGS words or more writes outside `argv`.
pub parseline_overflow :
    (a : List ℕ) (args : List (List ℕ))
    → All IsWord (a ∷ args)
    → max_args ≤ length (a ∷ args)
    → parseline (command (a ∷ args)) ≡ none
unfolding parseline
parseline_overflow a args w h = elim (Bool-cases (leb max_line (length (command (a ∷ args))))) [
  | inl long ↦ rw (blank_last-command a args w, parseline, long) refl
  | inr short ↦
      rw (blank_last-command a args w, parseline, short, arguments-spaced (a ∷ args) w)
        (ground arith)
]
