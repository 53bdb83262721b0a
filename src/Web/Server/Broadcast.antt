-- ===== src/Web/Server/Broadcast.antt =====
-- Who stays a client after a broadcast, and what each of them gets.
use zabawheels.Prelude.{
  ℕ, ◌<◌, ◌≡◌, ap, ◌∙◌, Bool, not, ◌&&◌, some, [], ◌∷◌, ◌++◌, arith, Bytes, length, if◌then◌else◌,
}
use zabawheels.Web.Frame.{length_limit}
use zabawheels.Web.Frame.RoundTrip.{server_frame, send_frame-server_frame}
use zabawheels.Web.Server.{Server, has_client, gets_through, send_all, broadcast}
use zabawheels.Web.Server.Delivery.{
  frames_to, NoTwice, has_client-unregister_all, frames_to-unregister_all, clients-send_all,
  has_client-send_all, frames_to-send_all,
}

stays : (b g : Bool) → (b && not (b && not g)) ≡ (b && g)
stays b g = ground arith

-- From a set of clients with no client twice.
pub frames_to-broadcast :
    (accepts : ℕ → Bytes → Bool) (c : ℕ) (payload : Bytes) (s : Server)
    → length payload < length_limit
    → NoTwice s.clients
    → (frames_to c (broadcast accepts payload s).calls
        ≡ frames_to c s.calls
          ++ (if has_client c s.clients && accepts c (server_frame 2 payload)
              then server_frame 2 payload ∷ []
              else []))
      × (has_client c (broadcast accepts payload s).clients
          ≡ (has_client c s.clients && accepts c (server_frame 2 payload)))
unfolding broadcast gets_through
frames_to-broadcast accepts c payload s small once =
    let frame = server_frame 2 payload in
    let u = (send_all accepts s.clients (some frame) s).0 in
    let dead = (send_all accepts s.clients (some frame) s).1 in
    rw (send_frame-server_frame 2 payload small) (
      frames_to-unregister_all c dead u ∙ frames_to-send_all accepts c s.clients frame s once,
      has_client-unregister_all c dead u
          ∙ ap (λ b. b && not (has_client c dead))
              (ap (has_client c) (clients-send_all accepts s.clients (some frame) s))
          ∙ ap (λ b. has_client c s.clients && not b)
              (has_client-send_all accepts c s.clients (some frame) s)
          ∙ stays (has_client c s.clients) (accepts c frame),
    )
