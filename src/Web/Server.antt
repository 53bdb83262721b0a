-- ===== src/Web/Server.antt =====
-- The clients of `WebSocketServer` (app/zmux/ws_server.py): how they come and go, and what is sent to
-- all of them.
pub mod Delivery
pub mod Broadcast
pub mod Life
use zabawheels.Prelude.{
  ℕ, Bool, true, false, Option, none, some, List, [], ◌∷◌, ◌++◌, ◌||◌, map, Bytes, ◌==◌,
  if◌then◌else◌,
}
use zabawheels.Web.Frame.{send_frame}

-- What is done to a client's socket: bytes that `sendall` hands over whole, and `close`.
pub data SocketCall : Type 0 where
  sent : ℕ → Bytes → SocketCall
  closed : ℕ → SocketCall

-- The sockets of clients are numbered. `clients` is the set, in the order that its items came.
pub record Server : Type 0 where
  pub is_running : Bool
  pub clients : List ℕ
  pub calls : List SocketCall

abbrev pub new_server : Server
new_server = record { is_running = false; clients = []; calls = [] }

-- `client in self.clients`
unfoldable pub has_client : ℕ → List ℕ → Bool
has_client c [] = false
has_client c (d ∷ clients) = d == c || has_client c clients

-- `self.clients.remove(client)`
unfoldable pub without : ℕ → List ℕ → List ℕ
without c [] = []
without c (d ∷ clients) = let rest = without c clients in if d == c then rest else d ∷ rest

-- `self.clients.add(sock)`
unfoldable pub add_client : ℕ → Server → Server
add_client c s = if has_client c s.clients then s else record s { clients = s.clients ++ c ∷ [] }

-- `_unregister_client`
unfoldable pub unregister_client : ℕ → Server → Server
unregister_client c s =
    if has_client c s.clients
    then record s { clients = without c s.clients; calls = s.calls ++ closed c ∷ [] }
    else s

unfoldable pub unregister_all : List ℕ → Server → Server
unregister_all [] s = s
unregister_all (c ∷ dead) s = unregister_all dead (unregister_client c s)

-- `stop`: the listening sockets are not part of the state.
unfoldable pub stop : Server → Server
stop s = record s { is_running = false; clients = []; calls = s.calls ++ map closed s.clients }

-- `accepts` tells whether `sendall` to a client succeeds; what a call that fails has handed over is not
-- kept.
module _ (accepts : ℕ → Bytes → Bool) where
  -- Whether `_send_frame` comes back without an exception.
  unfoldable pub gets_through : ℕ → Option Bytes → Bool
  gets_through c none = false
  gets_through c (some frame) = accepts c frame

  unfoldable pub record_call : ℕ → Option Bytes → Server → Server
  record_call c none s = s
  record_call c (some frame) s = record s { calls = s.calls ++ sent c frame ∷ [] }

  -- The first loop of `broadcast`, with the clients that it finds dead.
  unfoldable pub send_all : List ℕ → Option Bytes → Server → Server × List ℕ
  send_all [] frame s = (s, [])
  send_all (c ∷ clients) frame s =
      let sent_on = send_all clients frame (record_call c frame s) in
      let passed_over = send_all clients frame s in
      if gets_through c frame then sent_on else (passed_over.0, c ∷ passed_over.1)

  -- `broadcast`: a binary frame to every client; the dead ones are unregistered afterwards.
  unfoldable pub broadcast : Bytes → Server → Server
  broadcast payload s =
      let (u, dead) = send_all s.clients (send_frame 2 payload) s in unregister_all dead u

  unfoldable pub send_each : List ℕ → Option Bytes → Server → Server
  send_each [] frame s = s
  send_each (c ∷ clients) frame s =
      let sent_on = send_each clients frame (record_call c frame s) in
      let dropped = send_each clients frame (unregister_client c s) in
      if gets_through c frame then sent_on else dropped

  -- `_send_sessions_state`, from the encoded message: a text frame to every client, and a client that
  -- does not take it is unregistered at once.
  unfoldable pub send_sessions_state : Bytes → Server → Server
  send_sessions_state message s = send_each s.clients (send_frame 1 message) s
