-- ===== src/Web/Handshake/Token.antt =====
-- That only a request with the token is let in (app/zmux/ws_server.py).
use zabawheels.Prelude.{
  ◌≡◌, refl, ap, ◌⊎◌, inl, inr, ℕ, Bool, true, Option, none, some, List, [], ◌∷◌, Bytes, Text,
  bytes_eq_iff, if-elim, if-elim_eq,
}
use zabawheels.Web.Socket.{Socket}
use zabawheels.Web.Server.{Server}
use zabawheels.Web.Handshake.{
  Gate, words_from, read_http_headers, is_first, token_in, verify_token, turn_away, answer_request,
  handshake,
}

-- The second word of the request line is a path of whose query's tokens the first is the server's.
abbrev pub HasToken : Gate → Text → Type 0
HasToken g request_line =
    (verb : Text) × ((path : Text) × ((words : List Text) × ((words_from [] request_line
            ≡ verb ∷ path ∷ words)
          × ((tokens : List Text) × (g.query_tokens path ≡ some (g.auth_token ∷ tokens))))))

is_first_iff :
    (g : Gate) (o : Option (List Text))
    → is_first g o ≡ true
    → (tokens : List Text) × (o ≡ some (g.auth_token ∷ tokens))
is_first_iff g none h = cc h
is_first_iff g (some []) h = cc h
is_first_iff g (some (token ∷ tokens)) h =
    (tokens, ap (λ t. some (t ∷ tokens)) ((bytes_eq_iff token g.auth_token).0 h))

token_in-HasToken :
    (g : Gate) (request_line : Text) (words : List Text)
    → words_from [] request_line ≡ words
    → token_in g words ≡ true
    → HasToken g request_line
token_in-HasToken g request_line [] e h = cc h
token_in-HasToken g request_line (verb ∷ []) e h = cc h
token_in-HasToken g request_line (verb ∷ path ∷ words) e h =
    (verb, (path, (words, (e, is_first_iff g (g.query_tokens path) h))))

verify_token-HasToken :
    (g : Gate) (request_line : Text) → verify_token g request_line ≡ true → HasToken g request_line
unfolding verify_token
verify_token-HasToken g request_line h =
    token_in-HasToken g request_line (words_from [] request_line) refl h

module _ (g : Gate) (accepts : ℕ → Bytes → Bool) (client : ℕ) where
  clients-turn_away :
      (answer : Bytes) (s : Server) → (turn_away g accepts client answer s).clients ≡ s.clients
  unfolding turn_away
  clients-turn_away answer s =
      let Same : Server → Type 0 = λ r. r.clients ≡ s.clients in
      if-elim Same (accepts client answer) refl refl

  answer_request-HasToken :
      (headers : List (Text × Text)) (request_line : Text) (s : Server)
      → ((answer_request g accepts client (headers, request_line) s).clients ≡ s.clients)
        ⊎ HasToken g request_line
  unfolding answer_request
  answer_request-HasToken [] request_line s = inl refl
  answer_request-HasToken (header ∷ headers) [] s = inl refl
  answer_request-HasToken (header ∷ headers) (d ∷ request_line) s =
      if-elim_eq {A = Server} (λ r. (r.clients ≡ s.clients) ⊎ HasToken g (d ∷ request_line))
        (verify_token g (d ∷ request_line))
        (λ verified. inr (verify_token-HasToken g (d ∷ request_line) verified))
        (λ not_verified. inl (clients-turn_away _ s))

  -- Whatever a peer sends: the handshake leaves the set of clients as it was, or the path of the request line has
  -- the server's token as the first of its query.
  pub handshake-HasToken :
      (sock : Socket) (s : Server)
      → ((handshake g accepts client sock s).0.clients ≡ s.clients)
        ⊎ HasToken g (read_http_headers g sock).0.1
  unfolding handshake
  handshake-HasToken sock s =
      answer_request-HasToken (read_http_headers g sock).0.0 (read_http_headers g sock).0.1 s
