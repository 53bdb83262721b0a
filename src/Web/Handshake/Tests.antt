-- ===== src/Web/Handshake/Tests.antt =====
-- A handshake at a small gate, and the theorem at that input.
use zabawheels.Prelude.{
  ◌≡◌, refl, ◌⊎◌, true, some, [], ◌∷◌, bytes_eq, codes, find, is_space, strip, strip_left,
  strip_right, starts_with,
}
use zabawheels.Prelude.Dict.{lookup, insert}
use zabawheels.Web.Socket.{Socket, recv}
use zabawheels.Web.Server.{new_server, has_client, add_client}
use zabawheels.Web.Handshake.{
  Gate, read_buffer, split_lines, words_from, read_header, read_lines, parse_headers,
  read_http_headers, verify_token, compute_accept_key, let_in, answer_key, answer_request,
  handshake,
}
use zabawheels.Web.Handshake.Token.{HasToken, handshake-HasToken}

abbrev gate : Gate
gate = record {
  decode = λ bytes. bytes;
  to_lower = λ text. text;
  query_tokens = λ path. some (path ∷ []);
  digest = λ text. text;
  auth_token = codes "/t";
}

-- A request in two pieces.
abbrev request : Socket
request = codes "GET /t HTTP/1.1\r\nsec-web" ∷ codes "socket-key: k\r\n\r\n" ∷ []

clients_after : (handshake gate (λ client bytes. true) 7 request new_server).0.clients ≡ 7 ∷ []
unfolding read_buffer split_lines words_from read_header read_lines parse_headers read_http_headers
    verify_token compute_accept_key let_in answer_key answer_request handshake recv find starts_with
    strip strip_left strip_right is_space lookup insert bytes_eq has_client add_client
clients_after = refl

handshake-HasToken_example :
    ((handshake gate (λ client bytes. true) 7 request new_server).0.clients ≡ new_server.clients)
    ⊎ HasToken gate (read_http_headers gate request).0.1
handshake-HasToken_example = handshake-HasToken gate (λ client bytes. true) 7 request new_server
