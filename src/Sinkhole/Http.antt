-- ===== src/Sinkhole/Http.antt =====
-- `_handle_http`, `_decode_body_preview`, `scan_credential_patterns` and `_serve_dns` of
-- backend/app/sinkhole.py. What the peer sends is a list of chunks, `none` a time-out or another error of
-- the socket. The regular expressions and UTF-8 are arguments.
pub mod Bounds
use whs_dynamic.Base.{
  ℕ, zero, suc, ◌+◌, ◌*◌, ◌-◌, ◌/◌, ◌%◌, min, List, [], ◌∷◌, ◌++◌, Option, none, some, Bool, true,
  false, ◌||◌, ◌&&◌, Text, codes, take, drop, length, map, has_text, starts_with, leb, ltb, eqb,
  Bytes, if◌then◌else◌,
}
use whs_dynamic.Base.Outcomes.{Outcome, returned, raised}

-- `_MAX_REQUEST_BYTES`
abbrev pub max_request_bytes : ℕ
max_request_bytes = 65536

abbrev pub Stream : Type 0
Stream = List (Option Bytes)

-- `sock.recv(n)`: a longer chunk stays in the buffer of the socket.
unfoldable pub recv : ℕ → Stream → Outcome (Bytes × Stream)
recv n [] = returned ([], [])
recv n (none ∷ chunks) = raised
recv n (some chunk ∷ chunks) =
    if leb (length chunk) n
    then returned (chunk, chunks)
    else returned (take n chunk, some (drop n chunk) ∷ chunks)

abbrev pub blank_line : Bytes
blank_line = 13 ∷ 10 ∷ 13 ∷ 10 ∷ []

-- The loop that reads the head; `none` would be out of rounds.
unfoldable pub read_head : ℕ → Bytes → Stream → Option (Outcome (Bytes × Stream))
unfolding recv
read_head zero buf chunks = none
read_head (suc fuel) buf chunks =
    let more = recv 4096 chunks in
    if has_text buf blank_line || leb max_request_bytes (length buf)
    then some (returned (buf, chunks))
    else elim more [
      | raised ↦ some raised
      | returned (chunk, chunks') ↦ elim chunk [
        | [] ↦ some (returned (buf, chunks'))
        | c ∷ cs ↦ read_head fuel (buf ++ c ∷ cs) chunks'
      ]
    ]

-- The loop that reads the body.
unfoldable pub read_body : ℕ → ℕ → Bytes → Stream → Option (Outcome Bytes)
unfolding recv
read_body zero content_length body chunks = none
read_body (suc fuel) content_length body chunks =
    let more = recv (min 4096 (content_length - length body)) chunks in
    if leb content_length (length body) then some (returned body) else elim more [
      | raised ↦ some raised
      | returned (chunk, chunks') ↦ elim chunk [
        | [] ↦ some (returned body)
        | c ∷ cs ↦ read_body fuel content_length (body ++ c ∷ cs) chunks'
      ]
    ]

-- `buf.partition(b"\r\n\r\n")`, the head and the rest.
unfoldable pub split_head : Bytes → Bytes × Bytes
split_head [] = ([], [])
split_head (b ∷ buf) =
    let rest = split_head buf in
    if starts_with (b ∷ buf) blank_line then ([], drop 4 (b ∷ buf)) else (b ∷ rest.0, rest.1)

-- `int(digits)`; `none` is the ValueError for more than 4300 digits.
unfoldable pub int_of : Text → Option ℕ
int_of digits = if ltb 4300 (length digits) then none else some (value 0 digits)
  where
    value : ℕ → Text → ℕ
    value acc [] = acc
    value acc (c ∷ s) = value (10 * acc + (c - b'0')) s

-- `content_length`, of the digits that the search finds.
unfoldable pub content_length_of : Option Text → Option ℕ
unfolding int_of
content_length_of none = some 0
content_length_of (some digits) = elim (int_of digits) [
  | none ↦ none
  | some n ↦ some (min n max_request_bytes)
]

-- The characters that end a line for `splitlines`, of those below 256.
abbrev pub is_line_end : ℕ → Bool
is_line_end c = leb 10 c && leb c 13 || leb 28 c && leb c 30 || eqb c 133

-- `headers_text.splitlines()[0] if headers_text else ""`
unfoldable pub request_line : Text → Text
request_line [] = []
request_line (c ∷ s) = let rest = request_line s in if is_line_end c then [] else c ∷ rest

-- `s.partition(" ")`, without the separator.
unfoldable pub split_space : Text → Text × Text
split_space [] = ([], [])
split_space (c ∷ s) =
    let rest = split_space s in if eqb c b' ' then ([], s) else (c ∷ rest.0, rest.1)

unfoldable pub or_none : Text → Option Text
or_none [] = none
or_none (c ∷ s) = some (c ∷ s)

-- `rest_of_line.split(" ")[0] if rest_of_line else None`
unfoldable pub path_of : Text → Option Text
unfolding split_space
path_of [] = none
path_of (c ∷ s) = some (split_space (c ∷ s)).0

-- `data.hex()`
unfoldable pub hex : Bytes → Text
hex [] = []
hex (b ∷ bs) = digit (b / 16) ∷ digit (b % 16) ∷ hex bs
  where
    digit : ℕ → ℕ
    digit n = if ltb n 10 then b'0' + n else b'a' + (n - 10)

-- `_decode_body_preview`
unfoldable pub decode_body_preview : (Bytes → Option Text) → Bytes → Text
unfolding hex
decode_body_preview decode_utf8 body = elim (decode_utf8 body) [ none ↦ hex body | some s ↦ s ]

pub record HttpCapture : Type 0 where
  pub host : Text
  pub client : Option Text
  pub scheme : Text
  pub dst_port : ℕ
  pub method : Option Text
  pub path : Option Text
  pub headers_preview : Text
  pub body_preview : Text

-- How a connection ends. `escaped` is an exception that leaves the thread.
pub record Served : Type 0 where
  pub captures : List HttpCapture
  pub replied : Bool
  pub closed : Bool
  pub escaped : Bool

-- No capture: an error of the socket, or an exception that is not handled.
abbrev pub dropped : Bool → List HttpCapture → Served
dropped escaped captures = record {
  captures = captures;
  replied = false;
  closed = true;
  escaped = escaped;
}

-- The capture is kept before the reply is sent; an OSError of `sendall` is passed over.
abbrev pub answered : Bool → List HttpCapture → HttpCapture → Served
answered sends captures c = record {
  captures = captures ++ c ∷ [];
  replied = sends;
  closed = true;
  escaped = false;
}

module _ (search_length : Text → Option Text) (decode_utf8 : Bytes → Option Text) where
  unfoldable pub capture_of : Text → Option Text → ℕ → Bytes → Bytes → HttpCapture
  unfolding request_line split_space or_none path_of decode_body_preview
  capture_of hostname client_ip dst_port head body =
      let line = split_space (request_line head) in
      record {
        host = hostname;
        client = client_ip;
        scheme = if eqb dst_port 443 then codes "https" else codes "http";
        dst_port = dst_port;
        method = or_none line.0;
        path = path_of line.1;
        headers_preview = take 1000 head;
        body_preview = decode_body_preview decode_utf8 (take 500 body);
      }

module _ (search_length : Text → Option Text) (decode_utf8 : Bytes → Option Text)
    (sends : Bool) where
  -- From the end of the body on.
  unfoldable pub respond :
      Text → Option Text → ℕ → List HttpCapture → Bytes → Option (Outcome Bytes) → Option Served
  respond hostname client_ip dst_port captures head none = none
  respond hostname client_ip dst_port captures head (some raised) = some (dropped false captures)
  respond hostname client_ip dst_port captures head (some (returned body)) = some (
      answered sends captures
        (capture_of search_length decode_utf8 hostname client_ip dst_port head body))

  -- From the head on.
  unfoldable pub handle_request :
      Text → Option Text → ℕ → List HttpCapture → Bytes → Stream → Option Served
  unfolding split_head content_length_of read_body respond
  handle_request hostname client_ip dst_port captures buf chunks =
      let (head, rest) = split_head buf in
      elim (content_length_of (search_length head)) [
        | none ↦ some (dropped true captures)
        | some n ↦
            respond hostname client_ip dst_port captures head
              (read_body (suc max_request_bytes) n rest chunks)
      ]

  -- From the end of the loop over the head on.
  unfoldable pub after_head :
      Text → Option Text → ℕ → List HttpCapture → Option (Outcome (Bytes × Stream)) → Option Served
  unfolding handle_request
  after_head hostname client_ip dst_port captures none = none
  after_head hostname client_ip dst_port captures (some raised) = some (dropped false captures)
  after_head hostname client_ip dst_port captures (some (returned (buf, chunks))) =
      handle_request hostname client_ip dst_port captures buf chunks

  -- `_handle_http`; `none` would be a loop out of rounds.
  unfoldable pub handle_http : Text → Option Text → ℕ → List HttpCapture → Stream → Option Served
  unfolding read_head after_head
  handle_http hostname client_ip dst_port captures chunks =
      after_head hostname client_ip dst_port captures (read_head (suc max_request_bytes) [] chunks)

-- `scan_credential_patterns`, of the patterns by their names and what a search with each finds.
unfoldable pub scan_credential_patterns :
    {Name : Type 0}
    → List (Name × (Bytes → Option Bytes))
    → (Bytes → Text)
    → Bytes
    → Bytes
    → List (Name × Text)
scan_credential_patterns [] decode head body = []
scan_credential_patterns ((name, search) ∷ patterns) decode head body =
    let rest = scan_credential_patterns patterns decode head body in
    elim (search (head ++ 10 ∷ body)) [
      | none ↦ rest
      | some found ↦ (name, decode (take 80 found)) ∷ rest
    ]
