-- ===== src/Web/Server/Life.antt =====
-- Broadcasts after any sequence of calls on the server.
use zabawheels.Web.Frame.{length_limit}
use zabawheels.Web.Frame.RoundTrip.{server_frame}
use zabawheels.Web.Server.Broadcast.{frames_to-broadcast}
use zabawheels.Web.Server.Delivery.{frames_to}
use zabawheels.Prelude.{
  ◌<◌, length, if◌then◌else◌, ℕ, ◌≡◌, refl, sym, ap, ◌∙◌, Bool, false, not, ◌&&◌, ◌||◌, Option,
  List, [], ◌∷◌, ◌++◌, arith, Bytes, ◌==◌, if-elim, if-elim_eq, Bool-cases, inl, inr, subst,
}
use zabawheels.Web.Frame.{send_frame}
use zabawheels.Web.Server.{
  Server, new_server, has_client, without, add_client, unregister_client, unregister_all, stop,
  gets_through, record_call, send_all, broadcast, send_each, send_sessions_state,
}
use zabawheels.Web.Server.Delivery.{
  NoTwice, has_client-without, clients-record_call, clients-send_all,
}

NoTwice-without : (c : ℕ) (clients : List ℕ) → NoTwice clients → NoTwice (without c clients)
unfolding without
NoTwice-without c [] h = tt
NoTwice-without c (d ∷ clients) (new, h) = elim (Bool-cases (d == c)) [
  | inl same ↦ rw same (NoTwice-without c clients h)
  | inr other ↦ rw other (
    has_client-without d c clients ∙ ap (λ b. b && not (c == d)) new,
    NoTwice-without c clients h,
  )
]

has_client-append :
    (c : ℕ) (xs : List ℕ) (d : ℕ) → has_client c (xs ++ d ∷ []) ≡ (has_client c xs || d == c)
unfolding has_client
has_client-append c [] d = ground arith
has_client-append c (x ∷ xs) d = ground (arith, has_client-append c xs d)

NoTwice-append :
    (xs : List ℕ) (c : ℕ) → NoTwice xs → has_client c xs ≡ false → NoTwice (xs ++ c ∷ [])
unfolding has_client
NoTwice-append [] c h missing = (refl, tt)
NoTwice-append (x ∷ xs) c (new, h) missing = (
  has_client-append x xs c ∙ ground (arith, new, missing),
  NoTwice-append xs c h (ground (arith, missing)),
)

add_client-NoTwice : (c : ℕ) (s : Server) → NoTwice s.clients → NoTwice (add_client c s).clients
unfolding add_client
add_client-NoTwice c s h =
    if-elim_eq {A = Server} (λ u. NoTwice u.clients) (has_client c s.clients) (λ there. h)
      (λ missing. NoTwice-append s.clients c h missing)

unregister_client-NoTwice :
    (c : ℕ) (s : Server) → NoTwice s.clients → NoTwice (unregister_client c s).clients
unfolding unregister_client
unregister_client-NoTwice c s h =
    if-elim {A = Server} (λ u. NoTwice u.clients) (has_client c s.clients)
      (NoTwice-without c s.clients h) h

unregister_all-NoTwice :
    (dead : List ℕ) (s : Server) → NoTwice s.clients → NoTwice (unregister_all dead s).clients
unfolding unregister_all
unregister_all-NoTwice [] s h = h
unregister_all-NoTwice (c ∷ dead) s h =
    unregister_all-NoTwice dead (unregister_client c s) (unregister_client-NoTwice c s h)

-- A call on the server, with what the clients accept during it.
pub data ServerCall : Type 0 where
  registered : ℕ → ServerCall
  unregistered : ℕ → ServerCall
  broadcasted : (ℕ → Bytes → Bool) → Bytes → ServerCall
  tabs_sent : (ℕ → Bytes → Bool) → Bytes → ServerCall
  shut_down : ServerCall

unfoldable pub serve : ServerCall → Server → Server
serve (registered c) s = add_client c s
serve (unregistered c) s = unregister_client c s
serve (broadcasted accepts payload) s = broadcast accepts payload s
serve (tabs_sent accepts message) s = send_sessions_state accepts message s
serve shut_down s = stop s

unfoldable pub serve_all : List ServerCall → Server → Server
serve_all [] s = s
serve_all (c ∷ calls) s = serve_all calls (serve c s)

module _ (accepts : ℕ → Bytes → Bool) where
  broadcast-NoTwice :
      (payload : Bytes) (s : Server)
      → NoTwice s.clients
      → NoTwice (broadcast accepts payload s).clients
  unfolding broadcast
  broadcast-NoTwice payload s h =
      unregister_all-NoTwice (send_all accepts s.clients (send_frame 2 payload) s).1
        (send_all accepts s.clients (send_frame 2 payload) s).0
        (subst NoTwice (sym (clients-send_all accepts s.clients (send_frame 2 payload) s)) h)

  send_each-NoTwice :
      (clients : List ℕ) (frame : Option Bytes) (s : Server)
      → NoTwice s.clients
      → NoTwice (send_each accepts clients frame s).clients
  unfolding send_each
  send_each-NoTwice [] frame s h = h
  send_each-NoTwice (c ∷ clients) frame s h =
      if-elim {A = Server} (λ u. NoTwice u.clients) (gets_through accepts c frame)
        (send_each-NoTwice clients frame (record_call accepts c frame s)
          (subst NoTwice (sym (clients-record_call accepts c frame s)) h))
        (send_each-NoTwice clients frame (unregister_client c s) (unregister_client-NoTwice c s h))

serve-NoTwice : (c : ServerCall) (s : Server) → NoTwice s.clients → NoTwice (serve c s).clients
unfolding serve stop send_sessions_state
serve-NoTwice (registered c) s h = add_client-NoTwice c s h
serve-NoTwice (unregistered c) s h = unregister_client-NoTwice c s h
serve-NoTwice (broadcasted accepts payload) s h = broadcast-NoTwice accepts payload s h
serve-NoTwice (tabs_sent accepts message) s h =
    send_each-NoTwice accepts s.clients (send_frame 1 message) s h
serve-NoTwice shut_down s h = tt

serve_all-NoTwice :
    (calls : List ServerCall) (s : Server) → NoTwice s.clients → NoTwice (serve_all calls s).clients
unfolding serve_all
serve_all-NoTwice [] s h = h
serve_all-NoTwice (c ∷ calls) s h = serve_all-NoTwice calls (serve c s) (serve-NoTwice c s h)

-- After any calls on a new server, a broadcast hands its binary frame once to every client that takes
-- it, and to nobody else, and just those stay clients, whatever happens to the frames for the others.
-- The payload is one that a frame can hold.
pub broadcast-serve_all :
    (calls : List ServerCall) (accepts : ℕ → Bytes → Bool) (c : ℕ) (payload : Bytes)
    → length payload < length_limit
    → (frames_to c (broadcast accepts payload (serve_all calls new_server)).calls
        ≡ frames_to c (serve_all calls new_server).calls
          ++ (if has_client c (serve_all calls new_server).clients
                && accepts c (server_frame 2 payload)
              then server_frame 2 payload ∷ []
              else []))
      × (has_client c (broadcast accepts payload (serve_all calls new_server)).clients ≡ (
          has_client c (serve_all calls new_server).clients && accepts c (server_frame 2 payload)))
broadcast-serve_all calls accepts c payload small =
    frames_to-broadcast accepts c payload (serve_all calls new_server) small
      (serve_all-NoTwice calls new_server tt)
