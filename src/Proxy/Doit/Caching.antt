-- ===== src/Proxy/Doit/Caching.antt =====
-- The replies of proxy.c to a URL that is asked for twice.
use mathlib.Core.List.{append-nil, append_assoc}
use csapp.Common.{
  ℕ, ◌+◌, ◌≤◌, ◌<◌, ◌≡◌, refl, true, false, none, some, List, [], ◌∷◌, ◌++◌, ltb, ◌==◌, length,
  length-append, All, Bool-cases, inl, inr, arith,
}
use csapp.Proxy.Store.{Cache, find_cache_hit, cached_reply}
use csapp.Proxy.Store.Written.{Stamped}
use csapp.Proxy.Store.Served.{cached_reply-found, write_cache-cached_reply}
use csapp.Proxy.Request.{c_string, max_line, UrlStorage, parse_url, Message, construct_message}
use csapp.Proxy.Request.Compose.{concat}
use csapp.Proxy.Doit.{
  Sent, to_client, to_server, read_request, is_get, Reply, relay, Server, forward, answer_get, doit,
}

-- No null in the line.
abbrev pub IsText : List ℕ → Type 0
IsText line = All (λ c. (c == 0) ≡ false) line

c_string-IsText : (s : List ℕ) → IsText s → c_string s ≡ s
unfolding c_string
c_string-IsText [] h = refl
c_string-IsText (c ∷ cs) (h, hs) = rw (h, c_string-IsText cs hs) refl

abbrev pub to_clients : List (List ℕ) → List Sent
to_clients [] = []
to_clients (line ∷ lines) = to_client line ∷ to_clients lines

-- The reply after lines that fit.
abbrev relayed : List (List ℕ) → Reply → Reply
relayed lines r = record {
  sent = r.sent ++ to_clients lines;
  buf = r.buf ++ concat lines;
  cache_size = r.cache_size + length (concat lines);
}

relay-fits :
    (lines : List (List ℕ)) (r : Reply)
    → All IsText lines
    → length r.buf + length (concat lines) < max_line
    → relay lines r ≡ some (relayed lines r)
unfolding relay
relay-fits [] r t h =
    let e : r.cache_size + 0 ≡ r.cache_size = omega arith in
    rw (append-nil r.sent, append-nil r.buf, e) refl
relay-fits (line ∷ lines) r (t, ts) h =
    let l = length-append line (concat lines) in
    let k = length-append r.buf line in
    let fits : ltb (length r.buf + length line) max_line ≡ true = ground (arith, h, l) in
    let next : Reply = record {
      sent = r.sent ++ (to_client line ∷ []);
      buf = r.buf ++ line;
      cache_size = r.cache_size + length line;
    } in
    let rest = relay-fits lines next ts (omega (arith, h, l, k)) in
    let e : r.cache_size + length line + length (concat lines)
        ≡ r.cache_size + length (line ++ concat lines) =
      omega (arith, l) in
    rw
      (
        c_string-IsText line t,
        fits,
        rest,
        append_assoc r.sent (to_client line ∷ []) (to_clients lines),
        append_assoc r.buf line (concat lines),
        e,
      )
      refl

relay_overflow :
    (lines : List (List ℕ)) (r : Reply)
    → All IsText lines
    → length r.buf < max_line
    → max_line ≤ length r.buf + length (concat lines)
    → relay lines r ≡ none
unfolding relay
relay_overflow [] r t b h = absurd (omega arith)
relay_overflow (line ∷ lines) r (t, ts) b h =
    let l = length-append line (concat lines) in
    let k = length-append r.buf line in
    let next : Reply = record {
      sent = r.sent ++ (to_client line ∷ []);
      buf = r.buf ++ line;
      cache_size = r.cache_size + length line;
    } in
    elim (Bool-cases (ltb (length r.buf + length line) max_line)) [
      | inl e ↦
          rw (c_string-IsText line t, e)
            (relay_overflow lines next ts (ground (arith, k)) (omega (arith, h, l, k)))
      | inr e ↦ rw (c_string-IsText line t, e) refl
    ]

-- A request line for the URL, with the method GET in any case of letters. The URL fits its array.
abbrev pub AsksFor : List ℕ → List ℕ → Type 0
AsksFor line url =
    (method : List ℕ) × (read_request (c_string line) ≡ some (method, url))
    × (is_get method ≡ true)
    × (length url < max_line)

-- A URL that the cache does not have, and what the proxy gets for it: a host, a port, a message, and
-- the lines of a server that takes them.
pub record Exchange (unset : List ℕ) (storage : UrlStorage) (server : Server) (url : List ℕ)
    (lines : List (List ℕ)) (c : Cache) : Type 0 where
  pub missing : find_cache_hit url c ≡ none
  pub target : UrlStorage
  pub parsed : parse_url unset url storage ≡ some target
  pub message : Message
  pub constructed : construct_message target lines ≡ some message
  pub answer : List (List ℕ)
  pub answered : server target.hostname target.port message.text ≡ some answer
  pub text : All IsText answer

module _ (line url : List ℕ) (asks : AsksFor line url) where
  doit-answer_get :
      (unset : List ℕ) (storage : UrlStorage) (server : Server) (lines : List (List ℕ)) (c : Cache)
      → doit unset storage server (line ∷ lines) c
        ≡ answer_get unset storage server url lines c (find_cache_hit url c)
  unfolding doit
  doit-answer_get unset storage server lines c = rw (asks.1, asks.2) refl

  -- A URL that the cache has is answered from there, and nothing goes to a server.
  doit-hit :
      (unset : List ℕ) (storage : UrlStorage) (server : Server) (lines : List (List ℕ)) (c : Cache)
      (reply : List ℕ)
      → cached_reply url c ≡ some reply
      → doit unset storage server (line ∷ lines) c ≡ some (to_client reply ∷ [], c)
  unfolding answer_get
  doit-hit unset storage server lines c reply e =
      let (i, l, f, g, b) = cached_reply-found c url reply e in
      rw (doit-answer_get unset storage server lines c, f, g, b) refl

  -- On a cache of ten lines with different times, a GET request for a URL of fewer than 8192 bytes
  -- that the cache does not have, that can be parsed and that a server answers, goes to that server,
  -- and the client gets the lines of the answer, where they have no null and fewer than 8192 bytes.
  -- The same request line after that is answered from the cache with the same bytes, whatever the
  -- server then is; it sends nothing to a server and does not change the cache.
  pub doit-twice :
      (unset : List ℕ) (storage : UrlStorage) (server : Server) (lines : List (List ℕ)) (c : Cache)
      → (x : Exchange unset storage server url lines c) → Stamped c
      → length (concat x.answer) < max_line
      → (c' : Cache) × (doit unset storage server (line ∷ lines) c
          ≡ some
              (to_server x.target.hostname x.target.port x.message.text ∷ to_clients x.answer, c'))
        × ((unset' : List ℕ) (storage' : UrlStorage) (server' : Server) (lines' : List (List ℕ))
            → doit unset' storage' server' (line ∷ lines') c'
              ≡ some (to_client (concat x.answer) ∷ [], c'))
  unfolding forward answer_get
  doit-twice unset storage server lines c x w h =
      let start : Reply = record {
        sent = to_server x.target.hostname x.target.port x.message.text ∷ [];
        buf = [];
        cache_size = 0;
      } in
      let run = relay-fits x.answer start x.text (omega arith) in
      let size : 0 + length (concat x.answer) ≡ length (concat x.answer) = omega arith in
      let (c', e, r) =
        write_cache-cached_reply c (concat x.answer) url w x.missing (omega arith) asks.3 in
      (
        c',
        rw
            (
              doit-answer_get unset storage server lines c,
              x.missing,
              x.parsed,
              x.constructed,
              x.answered,
              run,
              size,
              e,
            )
            refl,
        λ unset' storage' server' lines'.
            doit-hit unset' storage' server' lines' c' (concat x.answer) r,
      )

  -- Where the answer to such a request has 8192 bytes or more and no null, the reply that `doit`
  -- collects for the cache is written past its array. Such a request is a GET for a URL of fewer than
  -- 8192 bytes that the cache does not have, that can be parsed and that a server answers.
  pub doit_overflow :
      (unset : List ℕ) (storage : UrlStorage) (server : Server) (lines : List (List ℕ)) (c : Cache)
      → (x : Exchange unset storage server url lines c) → max_line ≤ length (concat x.answer)
      → doit unset storage server (line ∷ lines) c ≡ none
  unfolding forward answer_get
  doit_overflow unset storage server lines c x h =
      let start : Reply = record {
        sent = to_server x.target.hostname x.target.port x.message.text ∷ [];
        buf = [];
        cache_size = 0;
      } in
      let run = relay_overflow x.answer start x.text (omega arith) (omega arith) in
      rw
        (
          doit-answer_get unset storage server lines c,
          x.missing,
          x.parsed,
          x.constructed,
          x.answered,
          run,
        )
        refl
