-- ===== src/Proxy/Doit/Tests.antt =====
-- `doit` of proxy.c on a short URL, with an empty cache.
use mathlib.Core.Option.{some-injective}
use csapp.Common.{
  ℕ, zero, suc, ◌+◌, ◌<◌, ◌≤◌, ◌≡◌, ◌==◌, refl, sym, ap, false, some, none, List, [], ◌∷◌, ◌++◌,
  All, get_elem?, length, replicate, length-append, length-replicate, All-replicate, arith,
}
use csapp.Proxy.Store.{CacheLine, Cache, cache_lines, find_cache_hit}
use csapp.Proxy.Store.Written.{Stamped}
use csapp.Proxy.Request.{max_line, UrlStorage, c_string}
use csapp.Proxy.Request.Url.{parse_url-default_port}
use csapp.Proxy.Request.Lines.{strings, unreplaced, IsHeader, IsEnd}
use csapp.Proxy.Request.Compose.{concat, proxy_lines, construct_message_lem}
use csapp.Proxy.Doit.{to_client, to_server, read_request, Server, doit}
use csapp.Proxy.Doit.Caching.{IsText, to_clients, AsksFor, Exchange, doit-twice, doit_overflow}

abbrev unused : CacheLine
unused = record { buf = λ i. 0; url = []; size = 0; valid = false; timestamp = 0 }

abbrev empty_cache : Cache
empty_cache = record { line = replicate cache_lines unused; current_time = 0 }

never_valid :
    (n i : ℕ) (l : CacheLine) → get_elem? (replicate n unused) i ≡ some l → l.valid ≡ false
never_valid zero i l e = absurd (cc e)
never_valid (suc n) zero l e = sym (ap (λ (y : CacheLine). y.valid) (some-injective _ l e))
never_valid (suc n) (suc i) l e = never_valid n i l e

empty_cache-Stamped : Stamped empty_cache
empty_cache-Stamped = record {
  size = refl;
  past = λ i l g v. absurd (ground (arith, never_valid cache_lines i l g));
  distinct = λ i j l m g k v u e. absurd (ground (arith, never_valid cache_lines i l g));
}

abbrev http : List ℕ
http = b'h' ∷ []

abbrev host : List ℕ
host = b'a' ∷ []

abbrev path : List ℕ
path = b'x' ∷ []

abbrev url : List ℕ
url = http ++ (b'/' ∷ b'/' ∷ (host ++ (b'/' ∷ path)))

abbrev request_line : List ℕ
request_line = b'G' ∷ b'e' ∷ b't' ∷ b' ' ∷ (url ++ (b' ' ∷ b'1' ∷ 13 ∷ 10 ∷ []))

request_line-AsksFor : AsksFor request_line url
unfolding read_request c_string
request_line-AsksFor = (b'G' ∷ b'e' ∷ b't' ∷ [], refl, refl, omega arith)

abbrev blank : UrlStorage
blank = record { hostname = []; port = []; filename = [] }

abbrev asked : UrlStorage
asked = record { hostname = host; port = b'8' ∷ b'0' ∷ []; filename = b'/' ∷ path }

abbrev kept : List (List ℕ)
kept = (b'D' ∷ b':' ∷ 13 ∷ 10 ∷ []) ∷ []

abbrev end : List (List ℕ)
end = (13 ∷ 10 ∷ []) ∷ []

abbrev headers : List (List ℕ)
headers = kept ++ end

short_enough :
    length (concat (proxy_lines asked)) + length (concat (unreplaced (strings kept))) + 2 < max_line
unfolding c_string
short_enough = omega arith

kept_open : All IsHeader (strings kept)
unfolding c_string
kept_open = ((λ e. cc e), tt)

end_IsEnd : IsEnd (strings end)
unfolding c_string
end_IsEnd = refl

url_missing : find_cache_hit url empty_cache ≡ none
unfolding find_cache_hit
url_missing = refl

-- A server that answers every message with the lines.
abbrev answers : List (List ℕ) → Server
answers lines _ _ _ = some lines

abbrev exchange :
    (lines : List (List ℕ))
    → All IsText lines
    → Exchange [] blank (answers lines) url headers empty_cache
exchange lines text = record {
  missing = url_missing;
  target = asked;
  parsed =
      parse_url-default_port [] http host path blank (refl, tt) (refl, tt)
        (refl, (refl, (refl, tt))) (refl, tt) (omega arith) (omega arith);
  message = (construct_message_lem asked kept end kept_open end_IsEnd short_enough).0;
  constructed = (construct_message_lem asked kept end kept_open end_IsEnd short_enough).1;
  answer = lines;
  answered = refl;
  text = text;
}

abbrev page : List (List ℕ)
page = (b'h' ∷ 10 ∷ []) ∷ (b'i' ∷ 10 ∷ []) ∷ []

abbrev page_exchange : Exchange [] blank (answers page) url headers empty_cache
page_exchange = exchange page ((refl, (refl, tt)), ((refl, (refl, tt)), tt))

doit-twice_example :
    (c' : Cache) × (doit [] blank (answers page) (request_line ∷ headers) empty_cache
      ≡ some (to_server host asked.port page_exchange.message.text ∷ to_clients page, c'))
    × ((unset' : List ℕ) (storage' : UrlStorage) (server' : Server) (lines' : List (List ℕ))
        → doit unset' storage' server' (request_line ∷ lines') c'
          ≡ some (to_client (concat page) ∷ [], c'))
doit-twice_example =
    doit-twice request_line url request_line-AsksFor [] blank (answers page) headers empty_cache
      page_exchange empty_cache-Stamped (omega arith)

abbrev long_page : List (List ℕ)
long_page = replicate 9000 b'm' ∷ []

abbrev long_exchange : Exchange [] blank (answers long_page) url headers empty_cache
long_exchange = exchange long_page (All-replicate (λ c. (c == 0) ≡ false) 9000 b'm' refl, tt)

long_page_size : max_line ≤ length (concat long_page)
long_page_size =
    let line : List ℕ = replicate 9000 b'm' in
    let n : length line ≡ 9000 = length-replicate {A = ℕ} 9000 b'm' in
    omega (arith, n, length-append line [])

doit_overflow_example :
    doit [] blank (answers long_page) (request_line ∷ headers) empty_cache ≡ none
doit_overflow_example =
    doit_overflow request_line url request_line-AsksFor [] blank (answers long_page) headers
      empty_cache long_exchange long_page_size
