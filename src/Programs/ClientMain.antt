-- ===== src/Programs/ClientMain.antt =====
-- client.cpp: the options of the client, and its `main`. The log, its level and the signal that ends
-- the process are left out.
pub mod Ending
use cs_network_proj.Base.{ℕ, true, ◌||◌, ◌==◌, if◌then◌else◌, none, List, [], ◌∷◌, codes}
use cs_network_proj.Base.Int.{ℤ, pos}
use cs_network_proj.Base.Outcome.{Cmd, pure, ◌>>=◌}
use cs_network_proj.Os.{Os}
use cs_network_proj.Client.DownloadManager.Resume.{Download}
use cs_network_proj.Client.Commands.{Client, init, connect_server, run_command, run_repl}
use cs_network_proj.Programs.Arguments.{
  Opt, given, flag, unknown, Kind, no_option, plain, with_argument, getopt, to_port, Parsed, parsed,
  refused, with_number,
}
use cs_network_proj.Programs.ServerMain.{failure, or_exit}

-- "h:p:t:v"
abbrev pub client_kind : ℕ → Kind
client_kind c =
    if (c == b'h') || ((c == b'p') || (c == b't'))
    then with_argument
    else (if c == b'v' then plain else no_option)

abbrev pub set_client : Client → ℕ → ℤ → Client
set_client client c v =
    if c == b'p'
    then record client { srv_port = to_port v }
    else record client { download_threads = v }

-- The option `v` changes the log alone.
abbrev pub client_option : Client → Opt → Parsed Client
client_option client (given c text) =
    if c == b'h'
    then parsed (record client { srv_address = text })
    else with_number text (set_client client c)
client_option client (flag c) = parsed client
client_option client unknown = refused failure

-- parseParam of the client
unfoldable pub client_params : Client → List Opt → Parsed Client
client_params client [] = parsed client
client_params client (o ∷ os) = elim (client_option client o) [
  | refused code ↦ refused code
  | parsed client' ↦ client_params client' os
]

abbrev pub default_client : Client
default_client = record {
  socket = none;
  active = true;
  read_buffer = [];
  download_buffers = [];
  dest_file = none;
  src_file = [];
  srv_address = codes "127.0.0.1";
  srv_port = 8000;
  download_threads = pos 10;
}

unfoldable pub parse_client : List (List ℕ) → Parsed Client
unfolding getopt client_params
parse_client words = client_params default_client (getopt client_kind words).opts

module _ (os : Os) (run : List ℕ → Download → Cmd os.World Download) where
  open os use {World}

  -- One command, the operands of the command line, or the interactive client on the lines of the
  -- standard input, in so many rounds.
  abbrev pub run_client : ℕ → List (List ℕ) → List (List ℕ) → Client → Cmd World ℕ
  run_client fuel lines [] client = do _ ← run_repl os fuel run client lines; pure 0
  run_client fuel lines (word ∷ words) client = do
    _ ← run_command os run client (word ∷ words)
    pure 0

  -- main of client.cpp, on the words behind the name of the program.
  unfoldable pub client_main : ℕ → List (List ℕ) → List (List ℕ) → Cmd World ℕ
  unfolding parse_client init connect_server run_command run_repl
  client_main fuel lines words = do
    client ← or_exit os (parse_client words)
    connected ← connect_server os (init client)
    run_client fuel lines (getopt client_kind words).operands connected
