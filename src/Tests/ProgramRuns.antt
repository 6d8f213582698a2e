-- ===== src/Tests/ProgramRuns.antt =====
-- Command lines of the two programs.
use cs_network_proj.Base.{ℕ, ◌≡◌, refl, List, [], ◌∷◌, arith, codes}
use cs_network_proj.Base.Int.{pos}
use cs_network_proj.Base.Outcome.{done, Cmd, Ends, pure-Ends}
use cs_network_proj.Server.ThreadPool.{decimal}
use cs_network_proj.Client.DownloadManager.Resume.{Download}
use cs_network_proj.Programs.Arguments.{stoi, given, flag, getopt, parsed, refused}
use cs_network_proj.Programs.ServerMain.{default_server, parse_server}
use cs_network_proj.Programs.ServerMain.Settled.{parse_server-printed}
use cs_network_proj.Programs.ClientMain.{client_kind, client_main}
use cs_network_proj.Programs.ClientMain.Ending.{one_command, client_main-Ends}
use cs_network_proj.Tests.Machine.{Machine, machine}

-- The operands move behind the options.
abbrev client_line : List (List ℕ)
client_line = codes "ls" ∷ codes "-vt3" ∷ codes "a" ∷ codes "--" ∷ codes "-h" ∷ []

split_line : getopt client_kind client_line ≡ record {
  opts = flag b'v' ∷ given b't' (codes "3") ∷ [];
  operands = codes "ls" ∷ codes "a" ∷ codes "-h" ∷ [];
}
unfolding getopt
split_line = refl

refused_line : parse_server (codes "-p" ∷ codes "x" ∷ []) ≡ refused 134
unfolding parse_server stoi
refused_line = refl

abbrev server_line : List (List ℕ)
server_line = codes "-p" ∷ codes "-1" ∷ codes "-t2" ∷ []

wrapped_line :
    parse_server server_line ≡ parsed (record default_server { port = 65535; thread_num = pos 2 })
unfolding parse_server stoi
wrapped_line = refl

parse_server-printed_example :
    parse_server (codes "-p" ∷ decimal 8081 8080 ∷ codes "-t" ∷ decimal 5 4 ∷ [])
    ≡ parsed (record default_server { port = 8080; thread_num = pos 4 })
parse_server-printed_example = parse_server-printed 8080 4 (omega arith) (omega arith)

abbrev idle : List ℕ → Download → Cmd Machine Download
idle starts d w = done d w

client_main-Ends_example : Ends (client_main machine idle 1 [] client_line)
unfolding getopt
client_main-Ends_example =
    client_main-Ends machine idle (λ starts d. pure-Ends d) 1 [] client_line
      (one_command (codes "ls") (codes "a" ∷ codes "-h" ∷ []))
