-- ===== src/Proxy/Request/Url.antt =====
-- What `parse_url` of proxy.c makes of the URLs of a request.
use csapp.Common.{
  ℕ, ◌+◌, ◌-◌, ◌*◌, ◌≡◌, refl, ap, true, false, none, some, List, [], ◌∷◌, ◌++◌, ◌==◌, All, arith,
  zero, suc, ◌/◌, ◌%◌, ◌^◌, ◌≤◌, ◌<◌, ltb, length, Bool-cases, inl, inr,
}
use csapp.Proxy.Request.{
  max_line, set_port, decimal_digits, stored, fits_arrays, UrlStorage, split_at, after_slashes,
  is_digit, scan_number, is_space, skip_space, word, scan_word, decimal, with_port, without_port,
  at_colon, at_slashes, parse_url,
}

-- No byte of the text is c.
abbrev pub Lacks : ℕ → List ℕ → Type 0
Lacks c s = All (λ b. (b == c) ≡ false) s

split_at-none : (c : ℕ) (s : List ℕ) → Lacks c s → split_at c s ≡ none
unfolding split_at
split_at-none c [] h = refl
split_at-none c (b ∷ bs) (h, hs) = rw (h, split_at-none c bs hs) refl

split_at-some : (c : ℕ) (s t : List ℕ) → Lacks c s → split_at c (s ++ (c ∷ t)) ≡ some (s, t)
unfolding split_at
split_at-some c [] t h = let e : (c == c) ≡ true = ground arith in rw e refl
split_at-some c (b ∷ bs) t (h, hs) = rw (h, split_at-some c bs t hs) refl

after_slashes-some :
    (scheme rest : List ℕ)
    → Lacks b'/' scheme
    → after_slashes (scheme ++ (b'/' ∷ b'/' ∷ rest)) ≡ some rest
unfolding after_slashes
after_slashes-some [] rest h = refl
after_slashes-some (c ∷ []) rest (h, hs) = rw h refl
after_slashes-some (c ∷ d ∷ scheme) rest (h, hs) =
    rw (h, after_slashes-some (d ∷ scheme) rest hs) refl

-- The number that digits spell.
abbrev pub value : ℕ → List ℕ → ℕ
value n [] = n
value n (c ∷ cs) = value (n * 10 + (c - b'0')) cs

scan_number-value :
    (ds t : List ℕ) (n : ℕ)
    → All (λ c. is_digit c ≡ true) ds
    → scan_number n (ds ++ (b'/' ∷ t)) ≡ (value n ds, b'/' ∷ t)
unfolding scan_number
scan_number-value [] t n h = refl
scan_number-value (c ∷ ds) t n (h, hs) =
    rw (h, scan_number-value ds t (n * 10 + (c - b'0')) hs) refl

abbrev pub Solid : List ℕ → Type 0
Solid s = All (λ c. is_space c ≡ false) s

word-Solid : (s : List ℕ) → Solid s → word s ≡ s
unfolding word
word-Solid [] h = refl
word-Solid (c ∷ cs) (h, hs) = rw h (ap (λ (r : List ℕ). c ∷ r) (word-Solid cs hs))

scan_word-path : (path old : List ℕ) → Solid path → scan_word (b'/' ∷ path) old ≡ b'/' ∷ path
unfolding scan_word skip_space word
scan_word-path path old h = ap (λ (r : List ℕ). b'/' ∷ r) (word-Solid path h)

-- The powers of ten, from 10 on.
tens : ℕ → ℕ
tens zero = 10
tens (suc d) = 10 * tens d

length-decimal_digits :
    (d k n : ℕ) (out : List ℕ) → n < tens d → length (decimal_digits k n out) ≤ length out + d + 1
unfolding decimal_digits tens
length-decimal_digits d zero n out h = omega arith
length-decimal_digits zero (suc k) n out h = ground arith
length-decimal_digits (suc d) (suc k) n out h = elim (Bool-cases (ltb n 10)) [
  | inl e ↦ rw e (omega arith)
  | inr e ↦
      rw e (omega (arith, length-decimal_digits d k (n / 10) ((b'0' + n % 10) ∷ out) (omega arith)))
]

length-decimal : (n : ℕ) → n < 2 ^ 31 → length (decimal n) < max_line
unfolding decimal
length-decimal n h =
    let many : tens 9 ≡ 10000000000 = unfold tens in refl in
    omega (arith, length-decimal_digits 9 (suc n) n [] (omega (arith, many)))

with_port-digits :
    (unset host : List ℕ) (d : ℕ) (ds path : List ℕ) (u : UrlStorage)
    → All (λ c. is_digit c ≡ true) (d ∷ ds)
    → value 0 (d ∷ ds) < 2 ^ 31
    → Solid path
    → with_port unset host ((d ∷ ds) ++ (b'/' ∷ path)) u
      ≡ some (record { hostname = host; port = decimal (value 0 (d ∷ ds)); filename = b'/' ∷ path })
unfolding with_port
with_port-digits unset host d [] path u (dd, dds) small p =
    let fits : ltb (value 0 (d ∷ [])) (2 ^ 31) ≡ true = ground arith in
    rw
      (
        dd,
        scan_number-value (d ∷ []) path 0 (dd, dds),
        set_port,
        fits,
        scan_word-path path u.filename p,
      )
      refl
with_port-digits unset host d (d' ∷ ds) path u (dd, dds) small p =
    let fits : ltb (value 0 (d ∷ d' ∷ ds)) (2 ^ 31) ≡ true = ground arith in
    rw
      (
        dd,
        scan_number-value (d ∷ d' ∷ ds) path 0 (dd, dds),
        set_port,
        fits,
        scan_word-path path u.filename p,
      )
      refl

stored-fits :
    (u : UrlStorage)
    → length u.hostname < max_line
    → length u.port < max_line
    → length u.filename < max_line
    → stored u ≡ some u
unfolding stored
stored-fits u h p f = let fits : fits_arrays u ≡ true = ground arith in rw fits refl

-- `http://host:80/path` gives the host, the port as a number is printed, and the path with its
-- slash, where the port is an `int` and the host and the path fit their arrays.
pub parse_url-port :
    (unset scheme host : List ℕ) (d : ℕ) (ds path : List ℕ) (u : UrlStorage)
    → Lacks b'/' scheme
    → Lacks b':' host
    → All (λ c. is_digit c ≡ true) (d ∷ ds)
    → Solid path
    → value 0 (d ∷ ds) < 2 ^ 31
    → length host < max_line
    → suc (length path) < max_line
    → parse_url unset (scheme ++ (b'/' ∷ b'/' ∷ (host ++ (b':' ∷ ((d ∷ ds) ++ (b'/' ∷ path)))))) u
      ≡ some (record { hostname = host; port = decimal (value 0 (d ∷ ds)); filename = b'/' ∷ path })
unfolding parse_url at_slashes at_colon
parse_url-port unset scheme host d ds path u s h dd p small short short_path =
    rw
      (
        after_slashes-some scheme (host ++ (b':' ∷ ((d ∷ ds) ++ (b'/' ∷ path)))) s,
        split_at-some b':' host ((d ∷ ds) ++ (b'/' ∷ path)) h,
        with_port-digits unset host d ds path u dd small p,
      )
      (stored-fits
        (record { hostname = host; port = decimal (value 0 (d ∷ ds)); filename = b'/' ∷ path })
        short (length-decimal (value 0 (d ∷ ds)) small) short_path)

-- `http://host/path` with no colon behind the slashes gives the host, port 80 and the path, where
-- they fit their arrays.
pub parse_url-default_port :
    (unset scheme host path : List ℕ) (u : UrlStorage)
    → Lacks b'/' scheme
    → Lacks b'/' host
    → Lacks b':' (host ++ (b'/' ∷ path))
    → Solid path
    → length host < max_line
    → suc (length path) < max_line
    → parse_url unset (scheme ++ (b'/' ∷ b'/' ∷ (host ++ (b'/' ∷ path)))) u
      ≡ some (record { hostname = host; port = b'8' ∷ b'0' ∷ []; filename = b'/' ∷ path })
unfolding parse_url at_slashes at_colon
parse_url-default_port unset scheme host path u s h c p short short_path =
    rw
      (
        after_slashes-some scheme (host ++ (b'/' ∷ path)) s,
        split_at-none b':' (host ++ (b'/' ∷ path)) c,
        without_port-path,
      )
      (stored-fits (record { hostname = host; port = b'8' ∷ b'0' ∷ []; filename = b'/' ∷ path })
        short (omega arith) short_path)
  where
    without_port-path :
        without_port (host ++ (b'/' ∷ path)) u
        ≡ some (record { hostname = host; port = b'8' ∷ b'0' ∷ []; filename = b'/' ∷ path })
    without_port-path =
        rw (without_port, split_at-some b'/' host path h, scan_word-path path u.filename p) refl

-- A URL with neither a path nor a port behind the slashes makes `parse_url` read through NULL.
pub parse_url_fault :
    (unset scheme host : List ℕ) (u : UrlStorage)
    → Lacks b'/' scheme
    → Lacks b'/' host
    → Lacks b':' host
    → parse_url unset (scheme ++ (b'/' ∷ b'/' ∷ host)) u ≡ none
unfolding parse_url at_slashes at_colon without_port
parse_url_fault unset scheme host u s h c =
    rw (after_slashes-some scheme host s, split_at-none b':' host c, split_at-none b'/' host h) refl
