-- ===== src/Lib.antt =====
-- ZMUX: the terminal app's sessions, from the bytes that the browser sends to the bytes that it shows,
-- its REST back end, its Linux environment and its package manager.
--
-- The program is a Python back end of an Android terminal. A browser view talks to
-- app/zmux/ws_server.py over a websocket; keystrokes, resizes and tab commands go to the
-- `SessionManager` of app/zmux/sessions.py, which owns up to eight `PTYTerminalSession`s of
-- app/zmux/pty_session.py and broadcasts the output of the one on screen. A session is a line editor
-- in front of a command worker, or, once Alpine Linux is installed, a pipe to a shell in a real PTY.
-- app/zmux/linuxenv.py installs that system and builds the command line of its shell.
-- app/zmux/server.py binds the ports, hands the page with the token to the browser view, and keeps an
-- older REST interface to a session of app/zmux/terminal.py. The command `zpip`, app/zmux/zpip.py,
-- installs Python wheels with their dependencies, and removes them. app/zmux/keystore.py encrypts what
-- is to be kept at rest; no other part calls it yet.
--
-- Files and the code they model:
--   Prelude, Prelude/: tests, lists, buffers of bytes, text, decimal numbers, integers; Dict has lists
--     of names and tables as Python keeps them, Outcome code that may raise, Json the values of
--     `json.loads`.
--   Alpine: `install` and `uninstall` of the Linux root of app/zmux/linuxenv.py, with the file system as
--     the record `Disk` and what lies outside as `World`. Alpine/Guest is the command line of the
--     guest's shell; Alpine/Guest/Argv and Alpine/Guest/Shell read it as PRoot does.
--   Pty/Control: `_filter_pty_controls` and `_possible_control_prefix`. Pty/Control/Scan is an
--     independent description, one byte at a time; Stream, Cut and Accounts reason with it.
--   Pty/Terminal: the fields of `PTYTerminalSession` as the record `Terminal`, and `_emit` with the
--     prompts. What the session does to the rest of the app is a list of `Effect`s in the state.
--   Pty/Editor: `_handle_escape_char`, `_history_step`, `_replace_line`, `_history_record`.
--   Pty/Session: `write_input`, `_handle_char`, `_submit_line`, `_interrupt_running`, the Python mode,
--     and the life of the Alpine shell (`_enter_linux_pty`, `_pty_exited`, `_leave_linux_pty`,
--     `toggle_pty`). `Host` holds what the session asks of the device, as it answers at that moment.
--   Pty/Worker: `start`, `_run_rc`, `stop`, `resize`, and `_exec_loop`, `_execute_and_render`,
--     `_finish_command` around the run of a command; Pty/Worker/Drained is the loop with its `except`
--     clauses and `_run_python_line`; what the interpreter makes of a line is a parameter.
--   Pty/Faithful: the scrollback, method by method; Pty/Faithful/Events is any sequence of events in a
--     session's life.
--   Pty/TypeAhead: lines typed while a command runs.
--   Rest: the REST back end. Rest/Token is app/zmux/security.py, Rest/Session app/zmux/terminal.py over
--     the interface `ShellOps` of the interpreter, Rest/Api, Rest/Exec and Rest/Serve the endpoints of
--     app/zmux/server.py with `require_auth`, Rest/Ports its two sockets. `Backend` holds what the
--     endpoints call elsewhere, with the package manager and `float`.
--   Sessions: `SessionManager` and `get_manager`, over the interface `SessionOps` of a session's
--     operations; Sessions/Terminals fills it with the sessions of Pty. Sessions/History is any
--     sequence of calls on the manager. Sessions/Tabs is an independent description of the tab strip, a
--     row of tabs with a hand on one of them, which knows neither tables nor sessions.
--   Streams: `StreamingWriter` of app/zmux/streams.py, through which commands print.
--   Web/Socket and Web/Frame: `_recv_exact`, `_read_frame` and `_send_frame` of app/zmux/ws_server.py.
--     A socket is the list of the pieces that `recv` will meet.
--   Web/Handshake: `_read_http_headers`, `_verify_token` and `_handle_client` up to the registration
--     of the client; the parsing of a query is a parameter.
--   Web/Messages: the message loop of `_handle_client`, `_handle_client_message` and
--     `_handle_session_action`, with the callbacks of `run_server`. `Python` holds the decoding of
--     UTF-8, `json.loads` and `int` of a text. Web/Messages/Asked says what a message asks for.
--   Web/Server: the client set of `WebSocketServer`, with `broadcast`, `_unregister_client`,
--     `_send_sessions_state` and `stop`. Whether `sendall` succeeds for a client is a parameter.
--   Elf: `elf_dynamic_needed` and `elf_soname` of app/zmux/elfscan.py, on the bytes of a file; the
--     decoding of UTF-8 is a parameter.
--   Keystore: the encrypted storage of app/zmux/keystore.py, `encrypt_payload` and `decrypt_payload`
--     with the master key's file as the record `Vault`. `Crypto` holds the primitives, which are
--     Python's. Keystore/Hex has the hexadecimal texts, Keystore/Master the secret, Keystore/Cipher
--     the keystream.
--   Zpip: the package manager of app/zmux/zpip.py. Zpip/Names has `canonicalize`, Zpip/Wheel
--     `_download`, `_safe_members` and `_extract`, Zpip/Modules `_discover_modules`, Zpip/Catalog
--     `resolve` with its two sources and `_manifest_requirements`, Zpip/Disk the loops on files of
--     `install` and `uninstall`, Zpip/Store `uninstall`, Zpip/Install `install`, Zpip/Search `search`
--     with `_fetch_curated_catalog` and `_probe_pypi`, and Zpip/Dispatch `verify`, `info` and
--     `dispatch`. `World` holds what the installer meets outside: the network, the hash, the reading
--     of an archive, the packaging library, the import of the result, and where the file system lets
--     it write, remove and restore.
--   The modules called Tests: runs at concrete inputs.
--
-- Conventions. Bytes and characters are natural numbers. A method is a function on the state, each
-- called in one piece: locks and threads are not modelled, and an interleaving is a sequence of calls.
-- A `ValueError` of the manager is `none`. In the package manager an exception is `raised` with its
-- text, of which the changing parts may be left out. A file's path is a text, and two texts are two
-- files: names such as `a/./b` are taken to be in normal form. Directories and file modes have no
-- counterpart, nor has the warning about names of well-known tools. PTY processes are numbered as they
-- are opened, so that a late notice of an exit can be told from a current one.
--
-- Fuel. `read_buffer` gets a round more than the socket has bytes; each round but the last takes one.
-- `keystream_loop` gets a round for each byte that is asked for; a round brings 32. `filter_loop` gets
-- one more round than there are bytes; each round but the last takes away a control of 25 bytes, so
-- the rounds never run out, which the equality with Pty/Control/Scan shows. `recv_loop` gets a round
-- for each missing byte; a round brings a byte or ends the loop, and running out is kept apart from
-- the end of the connection. `install` gets a unit for each level
-- of its recursion; each level has one more name on its stack, and a name on the stack ends it, so
-- that a closed index of n names needs n + 1. `exec_loop` gets the number of its rounds, one for each
-- line.
--
-- Not modelled: the kernel's side of a PTY (app/zmux/realpty.py), the interpreter that runs a command
-- (`_run_line`, app/zmux/python_shell.py), the decoding of UTF-8 input (a parameter), the Android
-- bridge, the diagnostics and the guest's wrappers of app/zmux/linuxenv.py, Flask's routing and response
-- headers, the build scripts and the web page.
pub mod Prelude
pub mod Alpine
pub mod Elf
pub mod Keystore
pub mod Pty
pub mod Rest
pub mod Sessions
pub mod Streams
pub mod Web
pub mod Zpip
