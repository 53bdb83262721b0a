-- ===== src/Rest/Tests.antt =====
-- The REST back end at concrete requests, and the theorems there.
use zabawheels.Prelude.Dict.{has_id, Distinct}
use zabawheels.Prelude.Int.{pos}
use zabawheels.Prelude.Json.{string, no_members, member, object}
use zabawheels.Prelude.{
  ℕ, ◌+◌, ◌≤◌, ◌≡◌, refl, Bool, true, false, ◌&&◌, ◌||◌, not, none, some, List, [], ◌∷◌, arith,
  Text, codes, bytes_eq, is_empty, inl, length, ◌==◌,
}
use zabawheels.Rest.Token.{load_or_create_token, holds}
use zabawheels.Rest.Session.{ShellOps, search_path, system_paths, add_unseen}
use zabawheels.Rest.Session.Paths.{search_path_complete}
use zabawheels.Rest.Api.{Request, static, exec, index, no_number, Backend, App}
use zabawheels.Rest.Serve.{handle_all}
use zabawheels.Rest.Serve.Authority.{AllLack, AllPublic, handle_all-unauthorized}
use zabawheels.Rest.Ports.{is_restricted, has_port, first_bound, bind_http_socket, bind_ws_socket}
use zabawheels.Rest.Ports.Safe.{IsForeign, IsFirst, sockets-IsFirst}

-- A shell that counts its runs, and packages that count theirs.
abbrev shell_ops : ShellOps
shell_ops = record {
  Shell = ℕ;
  Time = ℕ;
  fresh = 0;
  cwd = λ runs. codes "/home";
  execute = λ force source timeout runs. (runs + 1, no_members);
  execute_command = λ source timeout runs. (runs + 1, no_members);
}

abbrev backend : Backend shell_ops
backend = record {
  Packages = ℕ;
  dispatch = λ command runs. (runs + 1, no_members);
  format_output = λ command result. (codes "done", pos 0);
  fingerprint = codes "ZMUX";
  float_of = λ j. no_number;
  int_of_text = λ text. none;
  to_lower = λ text. text;
  display_path = λ path. path;
  home_dir = codes "/home";
  static_file = λ path. none;
}

abbrev token : Text
token = codes "0123456789abcdef0123456789abcdef"

abbrev intruder : Request
intruder = record {
  route = exec;
  token = codes "guess";
  json = some (object (member (codes "command") (string (codes "rm -rf ~")) no_members));
  body = codes "{}";
}

abbrev visitor : Request
visitor = record { route = index; token = []; json = none; body = [] }

abbrev stylesheet : Request
stylesheet = record { route = static (codes "zmux.css"); token = []; json = none; body = [] }

abbrev requests : List Request
requests = intruder ∷ visitor ∷ stylesheet ∷ []

abbrev app : App ℕ ℕ
app = record { session = none; packages = 0 }

requests_lack : AllLack (load_or_create_token true token (holds (codes "short"))).0 requests
requests_lack = (inl (omega arith), (inl (omega arith), (inl (omega arith), tt)))

handle_all-unauthorized_example :
    (16 ≤ length (load_or_create_token true token (holds (codes "short"))).0)
    × ((handle_all shell_ops backend
          (load_or_create_token true token (holds (codes "short"))).0
          requests
          app).1
        ≡ app)
    × AllPublic
        (load_or_create_token true token (holds (codes "short"))).0
        requests
        (handle_all shell_ops backend
          (load_or_create_token true token (holds (codes "short"))).0
          requests
          app).0
handle_all-unauthorized_example =
    handle_all-unauthorized shell_ops backend true token (holds (codes "short")) requests app refl
      requests_lack

-- The ports 8000 and 8001 are taken.
abbrev can_bind : ℕ → Bool
can_bind p = not (p == 8000) && not (p == 8001) && not (p == 8003)

http_port : bind_http_socket none can_bind ≡ some 8002
unfolding bind_http_socket is_restricted has_port first_bound
http_port = refl

ws_port : bind_ws_socket can_bind 8002 ≡ some 8004
unfolding bind_ws_socket is_restricted has_port first_bound
ws_port = refl

sockets-IsFirst_example :
    (is_restricted 8002 ≡ false)
    × (¬ IsForeign 8002)
    × IsFirst is_restricted can_bind 100 (8002 + 1) (bind_ws_socket can_bind 8002)
sockets-IsFirst_example = sockets-IsFirst none can_bind 8002 http_port

abbrev inherited : List Text
inherited = codes "/sbin" ∷ [] ∷ codes "/opt" ∷ codes "/zmux/bin" ∷ []

short_path :
    search_path (codes "/zmux/bin") inherited
    ≡ codes "/zmux/bin"
      ∷ codes "/system/bin"
      ∷ codes "/system/xbin"
      ∷ codes "/vendor/bin"
      ∷ codes "/sbin"
      ∷ codes "/opt"
      ∷ []
unfolding search_path add_unseen has_id bytes_eq
short_path = refl

search_path_complete_example :
    Distinct (search_path (codes "/zmux/bin") inherited)
    × ((behind : List Text) × (search_path (codes "/zmux/bin") inherited
          ≡ codes "/zmux/bin" ∷ behind))
    × ((x : Text)
        → has_id x (search_path (codes "/zmux/bin") inherited) ≡ (
            bytes_eq (codes "/zmux/bin") x
            || (not (is_empty x) && (has_id x system_paths || has_id x inherited))))
search_path_complete_example = search_path_complete (codes "/zmux/bin") inherited
