-- ===== src/Proxy/Doit.antt =====
-- proxylab/proxy.c: `raise_error` and `doit`, with the lines that `Rio_readlineb` reads from the
-- client and from the server. `none` is an access through NULL or past an array, a read of what
-- nothing has set, or the exit of a wrapper of csapp.c.
pub mod Caching
mod Tests
use mathlib.Core.Option
use csapp.Common.{
  ℕ, zero, suc, ◌+◌, Bool, true, false, ◌&&◌, Option, none, some, List, [], ◌∷◌, ◌++◌, ltb, ◌==◌,
  if◌then◌else◌, length, get_elem?, ◌>>=◌,
}
use csapp.Proxy.Store.{CacheLine, Cache, find_cache_hit, bytes_of, write_cache}
use csapp.Proxy.Request.{
  max_line, c_string, codes, UrlStorage, is_space, skip_space, word, decimal, lower, end_of_line,
  parse_url, Message, construct_message,
}

-- What `doit` sends, and to whom.
pub data Sent : Type 0 where
  to_client : List ℕ → Sent
  to_server : List ℕ → List ℕ → List ℕ → Sent

-- What `%s` of `sscanf` leaves behind the word.
pub after_word : List ℕ → List ℕ
after_word [] = []
after_word (c ∷ cs) = if is_space c then c ∷ cs else after_word cs

-- The first two words of `sscanf(buf, "%s %s %s", method, url, version)`; without them the arrays are
-- not set.
abbrev some_word : List ℕ → Option (List ℕ)
some_word [] = none
some_word (c ∷ cs) = some (word (c ∷ cs))

unfoldable pub read_request : List ℕ → Option (List ℕ × List ℕ)
unfolding skip_space after_word word
read_request buf = do
  method ← some_word (skip_space buf)
  url ← some_word (skip_space (after_word (skip_space buf)))
  some (method, url)

-- `!strcasecmp(method, "GET")`
abbrev pub is_get : List ℕ → Bool
is_get (g ∷ e ∷ t ∷ []) = lower g == b'g' && lower e == b'e' && lower t == b't'
is_get _ = false

-- The two texts of `raise_error`. `sprintf` of an array into itself, which C leaves undefined, is
-- taken to keep the array's text in front.
pub error_body : List ℕ → List ℕ → List ℕ → List ℕ → List ℕ
error_body cause errnum shortmsg longmsg =
    codes "<html><title>Tiny Error</title>"
    ++ codes "<body_buf bgcolor=\"ffffff\">"
    ++ end_of_line
    ++ errnum
    ++ codes ": "
    ++ shortmsg
    ++ end_of_line
    ++ codes "<p>"
    ++ longmsg
    ++ codes ": "
    ++ cause
    ++ end_of_line
    ++ codes "<hr><em>The Tiny Web server</em>"
    ++ end_of_line
    ++ codes "</body_buf></html>"

pub error_header : List ℕ → List ℕ → ℕ → List ℕ
error_header errnum shortmsg size =
    codes "HTTP/1.0 "
    ++ errnum
    ++ codes " "
    ++ shortmsg
    ++ end_of_line
    ++ codes "Content-type: text/html"
    ++ end_of_line
    ++ codes "Content-length: "
    ++ decimal size
    ++ end_of_line
    ++ end_of_line

-- The array `body_buf`.
abbrev pub max_buf : ℕ
max_buf = 8192

-- A text of `sprintf` with its null, in an array of `size` bytes.
pub printed : ℕ → List ℕ → Option (List ℕ)
printed size text = if ltb (length text) size then some text else none

pub raise_error : List ℕ → List ℕ → List ℕ → List ℕ → Option (List Sent)
unfolding error_body error_header printed
raise_error cause errnum shortmsg longmsg = do
  body ← printed max_buf (error_body cause errnum shortmsg longmsg)
  header ← printed max_line (error_header errnum shortmsg (length body))
  some (to_client header ∷ to_client body ∷ [])

pub not_implemented : List ℕ → Option (List Sent)
unfolding raise_error
not_implemented method =
    raise_error method (codes "501") (codes "Not implemented")
      (codes "Proxy dose not implement this method" ++ (10 ∷ []))

-- The reply so far: what went to the client, `buf` and `cache_size`.
pub record Reply : Type 0 where
  pub sent : List Sent
  pub buf : List ℕ
  pub cache_size : ℕ

-- The loop over the lines of the server. `strcat` past the end of `buf` is a fault.
pub relay : List (List ℕ) → Reply → Option Reply
unfolding c_string
relay [] r = some r
relay (line ∷ lines) r =
    let rest = relay lines (record {
      sent = r.sent ++ (to_client line ∷ []);
      buf = r.buf ++ c_string line;
      cache_size = r.cache_size + length line;
    }) in
    if ltb (length r.buf + length (c_string line)) max_line then rest else none

-- A server takes a host, a port and a message, and its lines are what can be read from it; without a
-- connection there are none.
abbrev pub Server : Type 0
Server = List ℕ → List ℕ → List ℕ → Option (List (List ℕ))

-- A URL that the cache does not have. `unset` and `storage` are what `portNum` and `url_storage` hold
-- before anything sets them.
pub forward :
    List ℕ → UrlStorage → Server → List ℕ → List (List ℕ) → Cache → Option (List Sent × Cache)
unfolding relay
forward unset storage server url lines c = do
  u ← parse_url unset url storage
  message ← construct_message u lines
  answer ← server u.hostname u.port message.text
  r ←
      relay answer
        (record { sent = to_server u.hostname u.port message.text ∷ []; buf = []; cache_size = 0 })
  c' ← write_cache r.buf url r.cache_size c
  some (r.sent, c')

-- A URL that the cache has, at the index.
pub serve : ℕ → Cache → Option (List Sent × Cache)
serve i c = do l ← get_elem? c.line i; some (to_client (bytes_of l.buf l.size) ∷ [], c)

pub answer_get :
    List ℕ
    → UrlStorage
    → Server
    → List ℕ
    → List (List ℕ)
    → Cache
    → Option ℕ
    → Option (List Sent × Cache)
unfolding forward serve
answer_get unset storage server url lines c (some i) = serve i c
answer_get unset storage server url lines c none = forward unset storage server url lines c

-- `doit` on the lines of a client: what is sent, and the cache after it.
pub doit : List ℕ → UrlStorage → Server → List (List ℕ) → Cache → Option (List Sent × Cache)
unfolding read_request not_implemented answer_get
doit unset storage server [] c = none
doit unset storage server (line ∷ lines) c = do
  (method, url) ← read_request (c_string line)
  if is_get method
      then answer_get unset storage server url lines c (find_cache_hit url c)
      else Option.map (λ (sent : List Sent). (sent, c)) (not_implemented method)
