-- ===== src/Web/Handshake.antt =====
-- How a client is let in: `_read_http_headers`, `_verify_token` and the handshake of `_handle_client`
-- (app/zmux/ws_server.py).
pub mod Token
pub mod Tests
use zabawheels.Prelude.Dict.{lookup, insert}
use zabawheels.Prelude.{
  ◌≡◌, refl, ◌⊎◌, inl, inr, ℕ, zero, suc, ◌+◌, Bool, true, false, Option, none, some, List, [], ◌∷◌,
  ◌++◌, Bytes, Text, codes, bytes_eq, bytes_eq_iff, encode, find, ◌==◌, ◌&&◌, length, take, drop,
  concat, strip, is_space, if◌then◌else◌, if-elim_eq,
}
use zabawheels.Web.Socket.{Socket, recv}
use zabawheels.Web.Server.{Server, SocketCall, sent, closed, add_client}

-- The end of the headers.
abbrev pub blank_line : Bytes
blank_line = codes "\r\n\r\n"

-- The loop of `_read_http_headers`.
unfoldable pub read_buffer : ℕ → Bytes → Socket → Bytes × Socket
read_buffer zero buffer sock = (buffer, sock)
read_buffer (suc fuel) buffer sock =
    let (chunk, rest) = recv 1024 sock in
    let more = read_buffer fuel (buffer ++ chunk) rest in
    elim (find blank_line buffer) [
      | some i ↦ (buffer, sock)
      | none ↦ elim chunk [ [] ↦ (buffer, rest) | b ∷ bytes ↦ more ]
    ]

-- The bytes ahead of the first blank line.
abbrev pub header_part : Bytes → Bytes
header_part buffer = elim (find blank_line buffer) [ none ↦ buffer | some i ↦ take i buffer ]

-- `text.split("\r\n")`, with the line that is being read.
unfoldable pub split_lines : Text → Text → List Text
split_lines line [] = line ∷ []
split_lines line (c ∷ []) = (line ++ c ∷ []) ∷ []
split_lines line (c ∷ d ∷ text) =
    let cut = split_lines [] text in
    let more = split_lines (line ++ c ∷ []) (d ∷ text) in
    if c == 13 && d == 10 then line ∷ cut else more

-- `text.split()`, with the word that is being read.
unfoldable pub words_from : Text → Text → List Text
words_from [] [] = []
words_from (d ∷ word) [] = (d ∷ word) ∷ []
words_from [] (c ∷ text) =
    let between = words_from [] text in
    let within = words_from (c ∷ []) text in if is_space c then between else within
words_from (d ∷ word) (c ∷ text) =
    let between = words_from [] text in
    let within = words_from (d ∷ word ++ c ∷ []) text in
    if is_space c then (d ∷ word) ∷ between else within

-- What the handshake asks outside: the decoding of UTF-8, `str.lower`, the query's values of `token` as urllib parses
-- them (nothing where it raises), and base64 of SHA-1. The token is ASCII, so that the comparison, which raises
-- for other texts, is equality.
pub record Gate : Type 0 where
  pub decode : Bytes → Text
  pub to_lower : Text → Text
  pub query_tokens : Text → Option (List Text)
  pub digest : Text → Text
  pub auth_token : Text

module _ (g : Gate) where
  -- A line with a colon gives a header.
  unfoldable pub read_header : Text → List (Text × Text) → List (Text × Text)
  read_header line headers = elim (find (codes ":") line) [
    | none ↦ headers
    | some i ↦ insert (g.to_lower (strip (take i line))) (strip (drop (i + 1) line)) headers
  ]

  unfoldable pub read_lines : List Text → List (Text × Text) → List (Text × Text)
  read_lines [] headers = headers
  read_lines (line ∷ lines) headers = read_lines lines (read_header line headers)

  unfoldable pub parse_headers : List Text → List (Text × Text) × Text
  parse_headers [] = ([], [])
  parse_headers (request_line ∷ lines) = (read_lines lines [], request_line)

  -- `_read_http_headers`. Each round takes a byte from the socket or ends the loop.
  unfoldable pub read_http_headers : Socket → (List (Text × Text) × Text) × Socket
  read_http_headers sock =
      let (buffer, rest) = read_buffer (suc (length (concat sock))) [] sock in
      elim buffer [
        | [] ↦ (([], []), rest)
        | b ∷ bytes ↦ (parse_headers (split_lines [] (g.decode (header_part (b ∷ bytes)))), rest)
      ]

  abbrev pub is_first : Option (List Text) → Bool
  is_first none = false
  is_first (some []) = false
  is_first (some (token ∷ tokens)) = bytes_eq token g.auth_token

  abbrev pub token_in : List Text → Bool
  token_in (verb ∷ path ∷ words) = is_first (g.query_tokens path)
  token_in _ = false

  -- `_verify_token`
  unfoldable pub verify_token : Text → Bool
  verify_token request_line = token_in (words_from [] request_line)

  -- `_compute_accept_key`
  unfoldable pub compute_accept_key : Text → Text
  compute_accept_key sec_key = g.digest (sec_key ++ codes "258EAFA5-E914-47DA-95CA-C5AB0DC85B11")

  abbrev pub switching : Text → Bytes
  switching accept_key = encode (
      codes
        "HTTP/1.1 101 Switching Protocols\r\nUpgrade: websocket\r\nConnection: Upgrade\r\nSec-WebSocket-Accept: "
      ++ accept_key
      ++ codes "\r\n\r\n")

  module _ (accepts : ℕ → Bytes → Bool) where
    -- An answer that turns the client away; where `sendall` raises, the socket is not closed here.
    unfoldable pub turn_away : ℕ → Bytes → Server → Server
    turn_away client answer s =
        if accepts client answer
        then record s { calls = s.calls ++ sent client answer ∷ closed client ∷ [] }
        else s

    unfoldable pub let_in : ℕ → Bytes → Server → Server
    let_in client answer s =
        if accepts client answer
        then add_client client (record s { calls = s.calls ++ sent client answer ∷ [] })
        else s

    unfoldable pub answer_key : ℕ → Option Text → Server → Server
    answer_key client none s =
        turn_away client (codes "HTTP/1.1 400 Bad Request\r\nConnection: close\r\n\r\n") s
    answer_key client (some []) s =
        turn_away client (codes "HTTP/1.1 400 Bad Request\r\nConnection: close\r\n\r\n") s
    answer_key client (some (c ∷ key)) s =
        let_in client (switching (compute_accept_key (c ∷ key))) s

    abbrev pub close_socket : ℕ → Server → Server
    close_socket client s = record s { calls = s.calls ++ closed client ∷ [] }

    unfoldable pub answer_request : ℕ → List (Text × Text) × Text → Server → Server
    answer_request client ([], request_line) s = close_socket client s
    answer_request client (header ∷ headers, []) s = close_socket client s
    answer_request client (header ∷ headers, d ∷ request_line) s =
        if verify_token (d ∷ request_line)
        then answer_key client (lookup (codes "sec-websocket-key") (header ∷ headers)) s
        else turn_away client (codes "HTTP/1.1 401 Unauthorized\r\nConnection: close\r\n\r\n") s

    -- `_handle_client`, up to the registration of the client.
    unfoldable pub handshake : ℕ → Socket → Server → Server × Socket
    handshake client sock s =
        let (request, rest) = read_http_headers sock in (answer_request client request s, rest)
