-- ===== src/Web/Tests.antt =====
-- The theorems on the websocket at concrete frames.
use zabawheels.Prelude.{
  ℕ, Bool, List, ◌&&◌, ◌==◌, if◌then◌else◌, ◌≡◌, refl, none, some, [], ◌∷◌, ◌++◌, arith, Bytes,
  codes, length, concat,
}
use zabawheels.Web.Server.{new_server, has_client, broadcast}
use zabawheels.Web.Server.Delivery.{frames_to}
use zabawheels.Web.Server.Life.{
  ServerCall, registered, unregistered, serve_all, broadcast-serve_all,
}
use zabawheels.Web.Socket.{
  Socket, AllFull, Reads, hung_up, recv_all, recv_exact, recv_exact-enough, recv_exact-short,
}
use zabawheels.Web.Frame.{send_frame, read_frame}
use zabawheels.Web.Frame.Bits.{masked_from}
use zabawheels.Web.Frame.RoundTrip.{
  seven, extended, client_frame, server_frame, read_frame-client_frame, read_frame-send_frame,
}

-- The frame of RFC 6455, 5.7, in two pieces, and the start of the next one behind it.
abbrev hello_key : Bytes
hello_key = 0x37 ∷ 0xfa ∷ 0x21 ∷ 0x3d ∷ []

abbrev hello_pieces : Socket
hello_pieces =
    (0x81 ∷ 0x85 ∷ 0x37 ∷ 0xfa ∷ [])
    ∷ (0x21 ∷ 0x3d ∷ 0x7f ∷ 0x9f ∷ 0x4d ∷ 0x51 ∷ 0x58 ∷ 0x81 ∷ [])
    ∷ []

hello_pieces-AllFull : AllFull hello_pieces
hello_pieces-AllFull = ((λ e. cc), ((λ e. cc), tt))

hello_pieces-client_frame :
    concat hello_pieces ≡ client_frame hello_key 1 (codes "Hello") ++ 0x81 ∷ []
unfolding client_frame seven extended masked_from
hello_pieces-client_frame = refl

read_frame-client_frame_example : Reads (read_frame hello_pieces) (1, codes "Hello") (0x81 ∷ [])
read_frame-client_frame_example =
    read_frame-client_frame 1 hello_key (codes "Hello") (0x81 ∷ []) hello_pieces (omega arith) refl
      (omega arith, (omega arith, (omega arith, (omega arith, tt))))
      (omega arith, (omega arith, (omega arith, (omega arith, (omega arith, tt))))) (omega arith)
      hello_pieces-AllFull hello_pieces-client_frame

abbrev prompt_pieces : Socket
prompt_pieces = (0x82 ∷ []) ∷ (2 ∷ 36 ∷ []) ∷ (32 ∷ []) ∷ []

prompt_pieces-AllFull : AllFull prompt_pieces
prompt_pieces-AllFull = ((λ e. cc), ((λ e. cc), ((λ e. cc), tt)))

prompt_pieces-server_frame : concat prompt_pieces ≡ server_frame 2 (codes "$ ") ++ []
unfolding server_frame seven extended
prompt_pieces-server_frame = refl

read_frame-send_frame_example :
    (send_frame 2 (codes "$ ") ≡ some (server_frame 2 (codes "$ ")))
    × Reads (read_frame prompt_pieces) (2, codes "$ ") []
read_frame-send_frame_example =
    read_frame-send_frame 2 (codes "$ ") [] prompt_pieces (omega arith) (omega arith)
      prompt_pieces-AllFull prompt_pieces-server_frame

recv_exact-enough_example :
    Reads (recv_exact (length (codes "ab")) (codes "a" ∷ codes "bc" ∷ [])) (codes "ab") (codes "c")
recv_exact-enough_example =
    recv_exact-enough (codes "ab") (codes "c") (codes "a" ∷ codes "bc" ∷ [])
      ((λ e. cc), ((λ e. cc), tt)) refl

recv_exact-short_example :
    (recv_all 4 (codes "a" ∷ codes "bc" ∷ []) ≡ hung_up)
    × (recv_exact 4 (codes "a" ∷ codes "bc" ∷ []) ≡ none)
recv_exact-short_example =
    recv_exact-short 4 (codes "a" ∷ codes "bc" ∷ []) ((λ e. cc), ((λ e. cc), tt)) (omega arith)

-- Three clients came and one went; of the two that are there, the second takes nothing.
abbrev takes : ℕ → Bytes → Bool
takes c bytes = c == 1

abbrev some_calls : List ServerCall
some_calls = registered 1 ∷ registered 3 ∷ unregistered 3 ∷ registered 2 ∷ []

broadcast-serve_all_example :
    (frames_to 2 (broadcast takes (codes "$ ") (serve_all some_calls new_server)).calls
      ≡ frames_to 2 (serve_all some_calls new_server).calls
        ++ (if has_client 2 (serve_all some_calls new_server).clients
              && takes 2 (server_frame 2 (codes "$ "))
            then server_frame 2 (codes "$ ") ∷ []
            else []))
    × (has_client 2 (broadcast takes (codes "$ ") (serve_all some_calls new_server)).clients ≡ (
        has_client 2 (serve_all some_calls new_server).clients
        && takes 2 (server_frame 2 (codes "$ "))))
broadcast-serve_all_example = broadcast-serve_all some_calls takes 2 (codes "$ ") (omega arith)
