-- ===== src/Proxy/Request/Lines.antt =====
-- The client's lines that `construct_message` of proxy.c copies, by the texts of their names.
use csapp.Common.{
  ℕ, ◌≡◌, ◌≢◌, refl, ap, inl, inr, Bool, true, false, ◌&&◌, ◌||◌, List, [], ◌∷◌, ◌++◌, ◌==◌,
  if◌then◌else◌, All, Bool-cases, arith,
}
use csapp.Proxy.Request.{c_string, codes, lower, begins_with, is_replaced, is_end, kept_lines}

-- A line as a C string.
abbrev pub strings : List (List ℕ) → List (List ℕ)
strings [] = []
strings (line ∷ lines) = c_string line ∷ strings lines

-- A line that is not the empty one.
abbrev pub IsHeader : List ℕ → Type 0
IsHeader line = line ≢ 13 ∷ 10 ∷ []

-- The empty line stands next, or nothing does.
abbrev pub IsEnd : List (List ℕ) → Type 0
IsEnd [] = Unit
IsEnd (line ∷ lines) = line ≡ 13 ∷ 10 ∷ []

abbrev pub lowered : List ℕ → List ℕ
lowered [] = []
lowered (c ∷ cs) = lower c ∷ lowered cs

abbrev pub is_prefix : List ℕ → List ℕ → Bool
is_prefix [] ys = true
is_prefix (x ∷ xs) [] = false
is_prefix (x ∷ xs) (y ∷ ys) = y == x && is_prefix xs ys

-- The line begins with the text, whatever the case of letters.
abbrev pub is_named : List ℕ → List ℕ → Bool
is_named name line = is_prefix (lowered name) (lowered line)

-- The line begins with the name of a header that the proxy sets.
abbrev pub set_by_proxy : List ℕ → Bool
set_by_proxy line =
    is_named (codes "Host") line
    || is_named (codes "User-Agent") line
    || is_named (codes "Connection") line
    || is_named (codes "Proxy-Connection") line

-- The lines but those.
abbrev pub unreplaced : List (List ℕ) → List (List ℕ)
unreplaced [] = []
unreplaced (line ∷ lines) = if set_by_proxy line then unreplaced lines else line ∷ unreplaced lines

begins_with-is_prefix : (name line : List ℕ) → begins_with name line ≡ is_prefix name (lowered line)
unfolding begins_with
begins_with-is_prefix [] line = refl
begins_with-is_prefix (n ∷ ns) [] = refl
begins_with-is_prefix (n ∷ ns) (c ∷ cs) =
    ap (λ (b : Bool). lower c == n && b) (begins_with-is_prefix ns cs)

is_replaced-set_by_proxy : (line : List ℕ) → is_replaced line ≡ set_by_proxy line
unfolding is_replaced
is_replaced-set_by_proxy line =
    rw
      (
        begins_with-is_prefix (lowered (codes "Host")) line,
        begins_with-is_prefix (lowered (codes "User-Agent")) line,
        begins_with-is_prefix (lowered (codes "Connection")) line,
        begins_with-is_prefix (lowered (codes "Proxy-Connection")) line,
      )
      refl

is_end-true : (line : List ℕ) → is_end line ≡ true → line ≡ 13 ∷ 10 ∷ []
is_end-true [] e = absurd (cc e)
is_end-true (c ∷ []) e = absurd (cc e)
is_end-true (c ∷ d ∷ []) e =
    let a : c ≡ 13 = ground arith in let b : d ≡ 10 = ground arith in rw (a, b) refl
is_end-true (c ∷ d ∷ x ∷ cs) e = absurd (cc e)

is_end-IsHeader : (line : List ℕ) → IsHeader line → is_end line ≡ false
is_end-IsHeader line h = elim (Bool-cases (is_end line)) [
  | inl e ↦ absurd (h (is_end-true line e))
  | inr e ↦ e
]

-- The loop stops at the empty line, and passes over the replaced ones alone.
pub kept_lines-strings :
    (ls rest : List (List ℕ))
    → All IsHeader (strings ls)
    → IsEnd (strings rest)
    → kept_lines (ls ++ rest) ≡ unreplaced (strings ls)
unfolding kept_lines
kept_lines-strings [] [] a e = refl
kept_lines-strings [] (line ∷ rest) a e = rw e refl
kept_lines-strings (l ∷ ls) rest (a, rest_a) e =
    let header = is_end-IsHeader (c_string l) a in
    let same = is_replaced-set_by_proxy (c_string l) in
    elim (Bool-cases (set_by_proxy (c_string l))) [
      | inl f ↦ rw (header, same, f) (kept_lines-strings ls rest rest_a e)
      | inr f ↦
          rw (header, same, f)
            (ap (λ (r : List (List ℕ)). c_string l ∷ r) (kept_lines-strings ls rest rest_a e))
    ]
