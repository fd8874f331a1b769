-- ===== src/Proxy/Request/Compose.antt =====
-- The message that proxy.c sends to the server.
use mathlib.Core.Path.{subst}
use mathlib.Core.List.{append-nil, append_assoc}
use csapp.Common.{
  ℕ, zero, suc, ◌+◌, ◌-◌, ◌≤◌, ◌<◌, ◌≡◌, refl, ◌∙◌, ap, inl, inr, true, false, Option, none, some,
  List, [], ◌∷◌, ◌++◌, ltb, ◌==◌, length, length-append, All, Bool-cases, arith, ◌>>=◌,
}
use csapp.Proxy.Request.Lines.{strings, IsHeader, unreplaced, IsEnd, kept_lines-strings}
use csapp.Proxy.Request.{
  codes, max_line, UrlStorage, take, Message, append, append_all, end_of_line, kept_lines,
  message_head, construct_message,
}

abbrev pub concat : List (List ℕ) → List ℕ
concat [] = []
concat (s ∷ ss) = s ++ concat ss

take_all : (n : ℕ) (s : List ℕ) → length s ≤ n → take n s ≡ s
unfolding take
take_all zero [] h = refl
take_all zero (c ∷ cs) h = absurd (omega arith)
take_all (suc n) [] h = refl
take_all (suc n) (c ∷ cs) h = ap (λ (r : List ℕ). c ∷ r) (take_all n cs (omega arith))

append-fits :
    (s : List ℕ) (m : Message)
    → m.count + length s < max_line
    → append s m ≡ some (record { text = m.text ++ s; count = m.count + length s })
unfolding append
append-fits s m h =
    let a : ltb max_line m.count ≡ false = ground arith in
    let b : (m.count == max_line) ≡ false = ground arith in
    rw (a, b, take_all (max_line - m.count - 1) s (omega arith)) refl

append_all-fits :
    (ss : List (List ℕ)) (m : Message)
    → m.count + length (concat ss) < max_line
    → append_all ss m
      ≡ some (record { text = m.text ++ concat ss; count = m.count + length (concat ss) })
unfolding append_all
append_all-fits [] m h =
    let e : m.count + 0 ≡ m.count = omega arith in rw (append-nil m.text, e) refl
append_all-fits (s ∷ ss) m h =
    let l = length-append s (concat ss) in
    let e : m.count + length s + length (concat ss) ≡ m.count + length (s ++ concat ss) =
      omega (arith, l) in
    rw (append-fits s m (omega (arith, l))) (
      append_all-fits ss (record { text = m.text ++ s; count = m.count + length s })
        (omega (arith, l))
      ∙ rw (append_assoc m.text s (concat ss), e) refl)

-- Whatever is written, `count` is the length that there would be.
abbrev Counts : ℕ → Option Message → Type 0
Counts n none = Unit
Counts n (some m) = m.count ≡ n

append-Counts : (s : List ℕ) (m : Message) → Counts (m.count + length s) (append s m)
unfolding append
append-Counts s m = elim (Bool-cases (ltb max_line m.count)) [
  | inl e ↦ rw e tt
  | inr e ↦ elim (Bool-cases (m.count == max_line)) [
    | inl f ↦ rw (e, f) refl
    | inr f ↦ rw (e, f) refl
  ]
]

append_all-Counts :
    (ss : List (List ℕ)) (m : Message) → Counts (m.count + length (concat ss)) (append_all ss m)
unfolding append_all
append_all-Counts [] m = omega arith
append_all-Counts (s ∷ ss) m = join (append s m) (λ m'. append_all-Counts ss m') (append-Counts s m)
  where
    join :
        (o : Option Message)
        → ((m' : Message) → Counts (m'.count + length (concat ss)) (append_all ss m'))
        → Counts (m.count + length s) o
        → Counts (m.count + length (s ++ concat ss)) (o >>= λ m'. append_all ss m')
    join none k h = tt
    join (some m') k h =
        let e : m'.count + length (concat ss) ≡ m.count + length (s ++ concat ss) =
          omega (arith, h, length-append s (concat ss)) in
        rw (← e) (k m')

-- The request line and the headers of the proxy, as they are spelled. The constant of the agent
-- brings a second name of its header.
abbrev pub proxy_lines : UrlStorage → List (List ℕ)
proxy_lines u =
    (codes "GET " ++ (u.filename ++ (codes " HTTP/1.0" ++ end_of_line)))
    ∷ (codes "Host: " ++ (u.hostname ++ end_of_line))
    ∷ (codes
          "User-Agent: User-Agent: Mozilla/5.0 (X11; Linux x86_64; rv:10.0.3) Gecko/20120305 Firefox/10.0.3"
        ++ end_of_line)
    ∷ (codes "Connection: close" ++ end_of_line)
    ∷ (codes "Proxy-Connection: close" ++ end_of_line)
    ∷ []

-- Where they have room, the message is the two parts and the empty line.
abbrev Composes : UrlStorage → List (List ℕ) → List (List ℕ) → List (List ℕ) → Type 0
Composes u lines head kept =
    length (concat head) + length (concat kept) + 2 < max_line
    → (m : Message) × (construct_message u lines ≡ some m)
      × (m.text ≡ (concat head ++ concat kept) ++ end_of_line)

construct_message-fits :
    (u : UrlStorage) (lines : List (List ℕ)) → Composes u lines (message_head u) (kept_lines lines)
unfolding construct_message
construct_message-fits u lines h =
    let start : Message = record { text = []; count = 0 } in
    let head = message_head u in
    let m₁ : Message = record { text = concat head; count = 0 + length (concat head) } in
    let m₂ : Message = record {
      text = concat head ++ concat (kept_lines lines);
      count = m₁.count + length (concat (kept_lines lines));
    } in
    (
      record { text = m₂.text ++ end_of_line; count = m₂.count + 2 },
      rw
          (
            append_all-fits head start (omega arith),
            append_all-fits (kept_lines lines) m₁ (omega arith),
            append-fits end_of_line m₂ (omega arith),
          )
          refl,
      refl,
    )

message_head-proxy_lines : (u : UrlStorage) → message_head u ≡ proxy_lines u
unfolding message_head
message_head-proxy_lines u = refl

-- From the client's lines in front of the empty line, or of the end of the input, the message is the
-- request line, the headers of the proxy, each of those lines up to its first null but those that
-- begin with one of the four header names that the proxy sets, in any case of letters, in their
-- order, and the empty line, where that has fewer than 8192 bytes.
pub construct_message_lem :
    (u : UrlStorage) (ls rest : List (List ℕ))
    → All IsHeader (strings ls)
    → IsEnd (strings rest)
    → length (concat (proxy_lines u)) + length (concat (unreplaced (strings ls))) + 2 < max_line
    → (m : Message) × (construct_message u (ls ++ rest) ≡ some m)
      × (m.text ≡ (concat (proxy_lines u) ++ concat (unreplaced (strings ls))) ++ (13 ∷ 10 ∷ []))
construct_message_lem u ls rest a e =
    subst (λ head. Composes u (ls ++ rest) head (unreplaced (strings ls)))
      (message_head-proxy_lines u)
      (subst (λ kept. Composes u (ls ++ rest) (message_head u) kept)
        (kept_lines-strings ls rest a e) (construct_message-fits u (ls ++ rest)))

-- Where the request line, the headers and the client's lines have more than 8192 bytes, the last
-- `snprintf` is told that it has room, and writes past `message`.
pub construct_message_overflow :
    (u : UrlStorage) (lines : List (List ℕ))
    → max_line < length (concat (message_head u)) + length (concat (kept_lines lines))
    → construct_message u lines ≡ none
unfolding construct_message append
construct_message_overflow u lines h =
    first (append_all (message_head u) (record { text = []; count = 0 }))
      (append_all-Counts (message_head u) (record { text = []; count = 0 }))
  where
    last :
        (o : Option Message)
        → Counts (length (concat (message_head u)) + length (concat (kept_lines lines))) o
        → (o >>= λ m. append end_of_line m) ≡ none
    last none c = refl
    last (some m) c = let over : ltb max_line m.count ≡ true = ground arith in rw over refl

    first :
        (o : Option Message)
        → Counts (0 + length (concat (message_head u))) o
        → (o >>= λ m. append_all (kept_lines lines) m >>= λ m'. append end_of_line m') ≡ none
    first none c = refl
    first (some m) c =
        let e : m.count ≡ length (concat (message_head u)) = omega (arith, c) in
        last (append_all (kept_lines lines) m) (
          subst
            (λ n. Counts (n + length (concat (kept_lines lines))) (append_all (kept_lines lines) m))
            e (append_all-Counts (kept_lines lines) m))
