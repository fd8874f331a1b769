-- ===== src/Proxy/Request.antt =====
-- proxylab/proxy.c: the URL of a request, and the message that goes to the server. A C string is the
-- list of its bytes; `none` is an access through NULL or past an array.
pub mod Url
pub mod Lines
pub mod Compose
mod Tests
use Prim.Native.Char.{code}
use Prim.Native.String.{String}
use mathlib.Core.Option
use csapp.Common.{
  ℕ, zero, suc, ◌+◌, ◌-◌, ◌*◌, ◌/◌, ◌%◌, Bool, true, false, not, ◌&&◌, ◌||◌, Option, none, some,
  List, [], ◌∷◌, ◌++◌, ltb, leb, ◌==◌, if◌then◌else◌, length, ◌>>=◌, ◌^◌,
}

abbrev pub max_line : ℕ
max_line = 8192

-- The bytes of an array before the first null.
unfoldable pub c_string : List ℕ → List ℕ
c_string [] = []
c_string (c ∷ cs) = if c == 0 then [] else c ∷ c_string cs

-- The code points of a text: its bytes, as it is ASCII.
abbrev pub codes : String → List ℕ
codes String.[] = []
codes (String.◌∷◌ c s) = code c ∷ codes s

pub record UrlStorage : Type 0 where
  pub hostname : List ℕ
  pub port : List ℕ
  pub filename : List ℕ

-- `index(s, c)`: what stands before the byte, and what stands behind it.
unfoldable pub split_at : ℕ → List ℕ → Option (List ℕ × List ℕ)
split_at c [] = none
split_at c (b ∷ bs) =
    let rest = Option.map (λ (r : List ℕ × List ℕ). (b ∷ r.0, r.1)) (split_at c bs) in
    if b == c then some ([], bs) else rest

-- `strstr(url, "//") + 2`
pub after_slashes : List ℕ → Option (List ℕ)
after_slashes [] = none
after_slashes (b ∷ []) = none
after_slashes (b ∷ c ∷ bs) =
    let rest = after_slashes (c ∷ bs) in if b == b'/' && c == b'/' then some bs else rest

abbrev pub is_digit : ℕ → Bool
is_digit c = leb b'0' c && leb c b'9'

-- `%d` of `sscanf` on a string that begins with a digit, and what it leaves.
pub scan_number : ℕ → List ℕ → ℕ × List ℕ
scan_number n [] = (n, [])
scan_number n (c ∷ cs) =
    let rest = scan_number (n * 10 + (c - b'0')) cs in if is_digit c then rest else (n, c ∷ cs)

-- The white space of C: from the tab to the carriage return, and the space.
abbrev pub is_space : ℕ → Bool
is_space c = (leb 9 c && leb c 13) || c == b' '

unfoldable pub skip_space : List ℕ → List ℕ
skip_space [] = []
skip_space (c ∷ cs) = if is_space c then skip_space cs else c ∷ cs

unfoldable pub word : List ℕ → List ℕ
word [] = []
word (c ∷ cs) = if is_space c then [] else c ∷ word cs

-- `%s` of `sscanf` into an array: without a word the array keeps what it has.
pub scan_word : List ℕ → List ℕ → List ℕ
unfolding skip_space word
scan_word s old = elim (skip_space s) [ [] ↦ old | c ∷ cs ↦ word (c ∷ cs) ]

-- `%d` of `sprintf`; a number has fewer digits than itself, plus one.
pub decimal_digits : ℕ → ℕ → List ℕ → List ℕ
decimal_digits zero n out = out
decimal_digits (suc k) n out =
    let rest = decimal_digits k (n / 10) ((b'0' + n % 10) ∷ out) in
    if ltb n 10 then (b'0' + n) ∷ out else rest

pub decimal : ℕ → List ℕ
unfolding decimal_digits
decimal n = decimal_digits (suc n) n []

abbrev default_port : List ℕ
default_port = b'8' ∷ b'0' ∷ []

-- The host before `:`, and the port and path behind it. Without a number there, `portNum` is not set:
-- `unset` is what it prints as.
-- A number that `int` does not have is left undefined by C, and is `none` here.
abbrev print_int : Bool → ℕ → List ℕ
print_int negative n = if negative && not (n == 0) then b'-' ∷ decimal n else decimal n

abbrev pub set_port : Bool → List ℕ → ℕ × List ℕ → UrlStorage → Option UrlStorage
set_port negative host (n, rest) u =
    if ltb n (if negative then 2 ^ 31 + 1 else 2 ^ 31)
    then some (record {
      hostname = host;
      port = print_int negative n;
      filename = scan_word rest u.filename;
    })
    else none

pub with_port : List ℕ → List ℕ → List ℕ → UrlStorage → Option UrlStorage
with_port unset host [] u = some (record u { hostname = host; port = unset })
with_port unset host (c ∷ []) u =
    if is_digit c
    then set_port false host (scan_number 0 (c ∷ [])) u
    else some (record u { hostname = host; port = unset })
with_port unset host (c ∷ d ∷ cs) u =
    if is_digit c
    then set_port false host (scan_number 0 (c ∷ d ∷ cs)) u
    else if c == b'-' && is_digit d
    then set_port true host (scan_number 0 (d ∷ cs)) u
    else if c == b'+' && is_digit d
    then set_port false host (scan_number 0 (d ∷ cs)) u
    else some (record u { hostname = host; port = unset })

pub without_port : List ℕ → UrlStorage → Option UrlStorage
unfolding scan_word
without_port rest u = do
  (host, path) ← split_at b'/' rest
  some (record {
    hostname = host;
    port = default_port;
    filename = scan_word (b'/' ∷ path) u.filename;
  })

-- Without `//` the path is put behind what stands in `filename`.
pub only_path : Option (List ℕ × List ℕ) → UrlStorage → Option UrlStorage
only_path none u = none
only_path (some (before, path)) u =
    some (record u { port = default_port; filename = u.filename ++ (b'/' ∷ path) })

pub at_colon : List ℕ → List ℕ → Option (List ℕ × List ℕ) → UrlStorage → Option UrlStorage
unfolding with_port without_port
at_colon unset rest none u = without_port rest u
at_colon unset rest (some (host, tail)) u = with_port unset host tail u

pub at_slashes : List ℕ → List ℕ → Option (List ℕ) → UrlStorage → Option UrlStorage
unfolding only_path at_colon
at_slashes unset url none u = only_path (split_at b'/' url) u
at_slashes unset url (some rest) u = at_colon unset rest (split_at b':' rest) u

-- The three strings with their null, in arrays of MAXLINE bytes.
abbrev pub fits_arrays : UrlStorage → Bool
fits_arrays u =
    ltb (length u.hostname) max_line
    && ltb (length u.port) max_line
    && ltb (length u.filename) max_line

pub stored : UrlStorage → Option UrlStorage
stored u = if fits_arrays u then some u else none

-- `parse_url` on the storage that `doit` hands it, which nothing has set before.
pub parse_url : List ℕ → List ℕ → UrlStorage → Option UrlStorage
unfolding after_slashes at_slashes stored
parse_url unset url u = do u' ← at_slashes unset url (after_slashes url) u; stored u'

-- `tolower` on ASCII.
abbrev pub lower : ℕ → ℕ
lower c = if leb b'A' c && leb c b'Z' then c + 32 else c

-- `!strncasecmp(line, name, strlen(name))`, for a name in small letters.
pub begins_with : List ℕ → List ℕ → Bool
begins_with [] line = true
begins_with (n ∷ ns) [] = false
begins_with (n ∷ ns) (c ∷ cs) = lower c == n && begins_with ns cs

-- A header of the client that the proxy replaces.
pub is_replaced : List ℕ → Bool
unfolding begins_with
is_replaced line =
    begins_with (b'h' ∷ b'o' ∷ b's' ∷ b't' ∷ []) line
    || begins_with (b'u' ∷ b's' ∷ b'e' ∷ b'r' ∷ b'-' ∷ b'a' ∷ b'g' ∷ b'e' ∷ b'n' ∷ b't' ∷ []) line
    || begins_with (b'c' ∷ b'o' ∷ b'n' ∷ b'n' ∷ b'e' ∷ b'c' ∷ b't' ∷ b'i' ∷ b'o' ∷ b'n' ∷ []) line
    || begins_with
        (b'p' ∷ b'r' ∷ b'o' ∷ b'x' ∷ b'y' ∷ b'-' ∷ b'c' ∷ b'o' ∷ b'n' ∷ b'n' ∷ b'e' ∷ b'c' ∷ b't'
          ∷ b'i' ∷ b'o' ∷ b'n' ∷ [])
        line

abbrev pub end_of_line : List ℕ
end_of_line = 13 ∷ 10 ∷ []

unfoldable pub take : ℕ → List ℕ → List ℕ
take zero s = []
take (suc n) [] = []
take (suc n) (c ∷ cs) = c ∷ take n cs

-- `message` and `count`.
pub record Message : Type 0 where
  pub text : List ℕ
  pub count : ℕ

-- `count += snprintf(message + count, MAXLINE - count, s)`. A difference below 0 becomes a huge
-- size, and the write goes past the array.
pub append : List ℕ → Message → Option Message
append s m =
    if ltb max_line m.count
    then none
    else if m.count == max_line
    then some (record m { count = m.count + length s })
    else some
        (record { text = m.text ++ take (max_line - m.count - 1) s; count = m.count + length s })

pub append_all : List (List ℕ) → Message → Option Message
unfolding append
append_all [] m = some m
append_all (s ∷ ss) m = do m' ← append s m; append_all ss m'

abbrev pub is_end : List ℕ → Bool
is_end (c ∷ d ∷ []) = c == 13 && d == 10
is_end _ = false

-- The lines that the loop copies, until the empty line or the end of the input. `strcmp` and `%s`
-- read a line up to its first null.
unfoldable pub kept_lines : List (List ℕ) → List (List ℕ)
unfolding is_replaced c_string
kept_lines [] = []
kept_lines (line ∷ lines) =
    let rest = kept_lines lines in
    if is_end (c_string line)
    then []
    else if is_replaced (c_string line)
    then rest
    else c_string line ∷ rest

-- The constant, which has the header's name already.
abbrev pub user_agent_hdr : List ℕ
user_agent_hdr =
    codes "User-Agent: Mozilla/5.0 (X11; Linux x86_64; rv:10.0.3) Gecko/20120305 Firefox/10.0.3"
    ++ end_of_line

-- What the literals of `construct_message` write around the request's own parts.
unfoldable pub message_head : UrlStorage → List (List ℕ)
message_head u =
    ((b'G' ∷ b'E' ∷ b'T' ∷ b' ' ∷ [])
      ++ (u.filename
          ++ (b' ' ∷ b'H' ∷ b'T' ∷ b'T' ∷ b'P' ∷ b'/' ∷ b'1' ∷ b'.' ∷ b'0' ∷ 13 ∷ 10 ∷ [])))
    ∷ ((b'H' ∷ b'o' ∷ b's' ∷ b't' ∷ b':' ∷ b' ' ∷ []) ++ (u.hostname ++ end_of_line))
    ∷ ((b'U' ∷ b's' ∷ b'e' ∷ b'r' ∷ b'-' ∷ b'A' ∷ b'g' ∷ b'e' ∷ b'n' ∷ b't' ∷ b':' ∷ b' ' ∷ [])
        ++ user_agent_hdr)
    ∷ (b'C' ∷ b'o' ∷ b'n' ∷ b'n' ∷ b'e' ∷ b'c' ∷ b't' ∷ b'i' ∷ b'o' ∷ b'n' ∷ b':' ∷ b' ' ∷ b'c'
        ∷ b'l' ∷ b'o' ∷ b's' ∷ b'e' ∷ 13 ∷ 10 ∷ [])
    ∷ (b'P' ∷ b'r' ∷ b'o' ∷ b'x' ∷ b'y' ∷ b'-' ∷ b'C' ∷ b'o' ∷ b'n' ∷ b'n' ∷ b'e' ∷ b'c' ∷ b't'
        ∷ b'i' ∷ b'o' ∷ b'n' ∷ b':' ∷ b' ' ∷ b'c' ∷ b'l' ∷ b'o' ∷ b's' ∷ b'e' ∷ 13 ∷ 10 ∷ [])
    ∷ []

-- `construct_message`, on the lines that `Rio_readlineb` reads from the client.
pub construct_message : UrlStorage → List (List ℕ) → Option Message
unfolding message_head append_all kept_lines
construct_message u lines = do
  m ← append_all (message_head u) (record { text = []; count = 0 })
  m' ← append_all (kept_lines lines) m
  append end_of_line m'
