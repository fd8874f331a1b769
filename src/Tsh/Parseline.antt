-- ===== src/Tsh/Parseline.antt =====
-- shelllab/tsh.c: `parseline`. A C string is the list of its bytes, without the closing null; the
-- copy in `array` is cut at its delimiters in place, so an argument is the list up to one.
pub mod Loop
pub mod Roundtrip
use mathlib.Core.Option
use csapp.Common.{
  ℕ, zero, suc, ◌+◌, Bool, true, false, Option, none, some, List, [], ◌∷◌, leb, ◌==◌, if◌then◌else◌,
  length,
}

-- `buf[strlen(buf) - 1] = ' '`; the empty string has no such byte.
pub blank_last : List ℕ → Option (List ℕ)
blank_last [] = none
blank_last (c ∷ []) = some (b' ' ∷ [])
blank_last (c ∷ d ∷ cs) = Option.map (λ r. c ∷ r) (blank_last (d ∷ cs))

pub skip_spaces : List ℕ → List ℕ
skip_spaces [] = []
skip_spaces (c ∷ cs) = if c == b' ' then skip_spaces cs else c ∷ cs

-- `strchr(buf, delim)`: what stands before the delimiter, and after it.
pub cut_at : ℕ → List ℕ → Option (List ℕ × List ℕ)
cut_at delim [] = none
cut_at delim (c ∷ cs) =
    let rest = Option.map (λ (r : List ℕ × List ℕ). (c ∷ r.0, r.1)) (cut_at delim cs) in
    if c == delim then some ([], cs) else rest

-- An argument begins with a quote and ends before the next one, or ends before a space.
pub next_arg : List ℕ → Option (List ℕ × List ℕ)
unfolding cut_at
next_arg [] = cut_at b' ' []
next_arg (c ∷ cs) = if c == 0x27 then cut_at 0x27 cs else cut_at b' ' (c ∷ cs)

-- The loop that builds `argv`. Each round takes a byte at least.
pub split_args : ℕ → List ℕ → List (List ℕ)
split_args zero buf = []
split_args (suc fuel) buf = elim (next_arg buf) [
  | none ↦ []
  | some (arg, rest) ↦ arg ∷ split_args fuel (skip_spaces rest)
]

pub arguments : List ℕ → List (List ℕ)
unfolding split_args next_arg skip_spaces
arguments buf = split_args (suc (length buf)) (skip_spaces buf)

abbrev pub max_args : ℕ
max_args = 128

-- The bytes of `array`, the copy of the command line with its null.
abbrev pub max_line : ℕ
max_line = 1024

abbrev begins_with_ampersand : List ℕ → Bool
begins_with_ampersand [] = false
begins_with_ampersand (c ∷ cs) = c == b'&'

-- The last argument asks for the background when it begins with `&`, and is then dropped.
pub take_background : List (List ℕ) → Bool × List (List ℕ)
take_background [] = (true, [])
take_background (a ∷ []) = if begins_with_ampersand a then (true, []) else (false, a ∷ [])
take_background (a ∷ b ∷ args) = let (bg, rest) = take_background (b ∷ args) in (bg, a ∷ rest)

-- The result and `argv`; `none` is a write outside `array` or `argv`.
pub parseline : List ℕ → Option (Bool × List (List ℕ))
unfolding blank_last arguments take_background
parseline cmdline = elim (blank_last cmdline) [
  | none ↦ none
  | some buf ↦
      if leb max_line (length cmdline)
      then none
      else if leb max_args (length (arguments buf))
      then none
      else some (take_background (arguments buf))
]
