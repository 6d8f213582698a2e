-- ===== src/Programs/ServerMain.antt =====
-- server.cpp: the options of the server, and its `main`. The log, its level and the signal that is
-- ignored are left out.
pub mod Settled
use cs_network_proj.Base.{
  ℕ, Bool, true, false, ◌||◌, ◌==◌, if◌then◌else◌, Option, none, some, List, [], ◌∷◌,
}
use cs_network_proj.Base.Int.{ℤ, pos}
use cs_network_proj.Base.Outcome.{exited, Cmd, pure, ◌>>=◌}
use cs_network_proj.Os.{Os}
use cs_network_proj.Server.Instance.{Server}
use cs_network_proj.Server.Epoll.{new_epoll}
use cs_network_proj.Server.Startup.{init_server, start_server}
use cs_network_proj.Programs.Arguments.{
  Opt, given, flag, unknown, Kind, no_option, with_argument, Line, getopt, to_port, Parsed, parsed,
  refused, with_number,
}

-- "p:t:l:"
abbrev pub server_kind : ℕ → Kind
server_kind c = if (c == b'p') || ((c == b't') || (c == b'l')) then with_argument else no_option

-- EXIT_FAILURE
abbrev pub failure : ℕ
failure = 1

abbrev pub set_server : Server → ℕ → ℤ → Server
set_server server c v =
    if c == b'p'
    then record server { port = to_port v }
    else (if c == b't' then record server { thread_num = v } else server)

abbrev pub server_option : Server → Opt → Parsed Server
server_option server (given c text) = with_number text (set_server server c)
server_option server (flag c) = refused failure
server_option server unknown = refused failure

-- parseParam of the server: the options in their order, up to one that ends the process.
unfoldable pub server_params : Server → List Opt → Parsed Server
server_params server [] = parsed server
server_params server (o ∷ os) = elim (server_option server o) [
  | refused code ↦ refused code
  | parsed server' ↦ server_params server' os
]

abbrev pub default_server : Server
default_server = record {
  epoll = new_epoll;
  active = true;
  thread_num = pos 10;
  port = 8000;
  max_listen_queue = 50;
  threads = [];
}

unfoldable pub parse_server : List (List ℕ) → Parsed Server
unfolding getopt server_params
parse_server words = server_params default_server (getopt server_kind words).opts

module _ (os : Os) where
  open os use {World}

  abbrev pub or_exit : {A : Type 0} → Parsed A → Cmd World A
  or_exit (parsed a) = pure a
  or_exit (refused code) = λ w. exited code

  abbrev pub run_server : Server → Cmd World ℕ
  run_server server = do ready ← init_server os server; _ ← start_server os ready; pure 0

  -- main of server.cpp, on the words behind the name of the program.
  unfoldable pub server_main : List (List ℕ) → Cmd World ℕ
  unfolding parse_server init_server start_server
  server_main words = do server ← or_exit (parse_server words); run_server server
