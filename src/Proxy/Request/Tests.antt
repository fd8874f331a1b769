-- ===== src/Proxy/Request/Tests.antt =====
-- The request handling of proxy.c on a short URL and on a long one.
use csapp.Common.{
  ℕ, ◌+◌, ◌<◌, ◌≡◌, refl, some, none, List, [], ◌∷◌, ◌++◌, All, length, replicate, length-append,
  length-replicate, arith,
}
use csapp.Proxy.Request.{
  c_string, codes, max_line, UrlStorage, end_of_line, kept_lines, message_head, decimal, parse_url,
  Message, construct_message,
}
use csapp.Proxy.Request.Url.{parse_url-port}
use csapp.Proxy.Request.Lines.{strings, unreplaced, IsHeader, IsEnd}
use csapp.Proxy.Request.Compose.{
  concat, proxy_lines, construct_message_lem, construct_message_overflow,
}

abbrev http : List ℕ
http = b'h' ∷ b't' ∷ b't' ∷ b'p' ∷ b':' ∷ []

abbrev host : List ℕ
host = b'a' ∷ b'.' ∷ b'b' ∷ []

abbrev path : List ℕ
path = b'x' ∷ []

abbrev blank : UrlStorage
blank = record { hostname = []; port = []; filename = [] }

abbrev asked : UrlStorage
asked = record { hostname = host; port = b'8' ∷ b'1' ∷ []; filename = b'/' ∷ path }

printed : decimal 81 ≡ b'8' ∷ b'1' ∷ []
unfolding decimal
printed = refl

parse_url-port_example :
    parse_url [] (http ++ (b'/' ∷ b'/' ∷ (host ++ (b':' ∷ b'8' ∷ b'1' ∷ b'/' ∷ path)))) blank
    ≡ some (record { hostname = host; port = decimal 81; filename = b'/' ∷ path })
parse_url-port_example =
    parse_url-port [] http host b'8' (b'1' ∷ []) path blank
      (refl, (refl, (refl, (refl, (refl, tt))))) (refl, (refl, (refl, tt))) (refl, (refl, tt))
      (refl, tt) (omega arith) (omega arith) (omega arith)

-- A `Host` line and a line that is kept, then the end of the request.
abbrev sent : List (List ℕ)
sent = (b'H' ∷ b'o' ∷ b's' ∷ b't' ∷ b':' ∷ 13 ∷ 10 ∷ []) ∷ (b'D' ∷ b':' ∷ 13 ∷ 10 ∷ []) ∷ []

abbrev end : List (List ℕ)
end = (13 ∷ 10 ∷ []) ∷ []

sent_open : All IsHeader (strings sent)
unfolding c_string
sent_open = ((λ e. cc e), ((λ e. cc e), tt))

end_IsEnd : IsEnd (strings end)
unfolding c_string
end_IsEnd = refl

short_enough :
    length (concat (proxy_lines asked)) + length (concat (unreplaced (strings sent))) + 2 < max_line
unfolding c_string
short_enough = omega arith

construct_message_lem_example :
    (m : Message) × (construct_message asked (sent ++ end) ≡ some m)
    × (m.text
        ≡ (concat (proxy_lines asked) ++ concat (unreplaced (strings sent))) ++ (13 ∷ 10 ∷ []))
construct_message_lem_example =
    construct_message_lem asked sent end sent_open end_IsEnd short_enough

abbrev long_storage : List ℕ → UrlStorage
long_storage path = record { hostname = host; port = b'8' ∷ b'0' ∷ []; filename = path }

-- The longest path that `parse_url` stores.
abbrev long_path : List ℕ
long_path = replicate 8191 b'x'

concat_tail : List (List ℕ) → List ℕ
concat_tail [] = []
concat_tail (line ∷ lines) = concat lines

path-message_head :
    (path : List ℕ)
    → length path ≡ 8191
    → max_line
      < length (concat (message_head (long_storage path))) + length (concat (kept_lines []))
unfolding message_head kept_lines concat_tail
path-message_head path h =
    let tail : List ℕ = codes " HTTP/1.0" ++ end_of_line in
    omega (
      arith,
      h,
      length-append path tail,
      length-append (path ++ tail) (concat_tail (message_head (long_storage path))),
    )

too_long :
    max_line
    < length (concat (message_head (long_storage long_path))) + length (concat (kept_lines []))
too_long = path-message_head long_path (length-replicate {A = ℕ} 8191 b'x')

construct_message_overflow_example : construct_message (long_storage long_path) [] ≡ none
construct_message_overflow_example = construct_message_overflow (long_storage long_path) [] too_long
