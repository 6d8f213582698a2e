-- ===== src/Programs/ClientMain/Ending.antt =====
-- When the client program ends.
use cs_network_proj.Base.{ℕ, ◌+◌, ◌<◌, ◌≡◌, ◌≢◌, true, List, [], ◌∷◌, ◌++◌, length}
use cs_network_proj.Base.Outcome.{
  Outcome, done, fault, exited, stuck, Cmd, Ends, bind-Ends, pure-Ends, Settles,
}
use cs_network_proj.Os.{Os}
use cs_network_proj.Client.DownloadManager.Resume.{Download}
use cs_network_proj.Client.Commands.{
  Client, init, connect_server, join_words, send_command, run_command, run_repl, is_quit,
}
use cs_network_proj.Client.Commands.Connects.{IsConnected, connect_server-IsConnected}
use cs_network_proj.Client.Commands.Terminates.{send_command-Ends, after_command-Ends}
use cs_network_proj.Client.Commands.Repl.{run_repl-quits}
use cs_network_proj.Programs.Arguments.{Parsed, parsed, refused, getopt}
use cs_network_proj.Programs.ServerMain.{or_exit}
use cs_network_proj.Programs.ClientMain.{client_kind, parse_client, run_client, client_main}

-- What the client is to do comes to an end: one command, or a dialogue with a line to quit and more
-- rounds than there are lines up to it.
pub data HasEnd (fuel : ℕ) : List (List ℕ) → List (List ℕ) → Type 0 where
  one_command :
      {lines : List (List ℕ)} (word : List ℕ) (words : List (List ℕ))
      → HasEnd fuel lines (word ∷ words)
  quits :
      {lines : List (List ℕ)} (before : List (List ℕ)) (line : List ℕ) (after : List (List ℕ))
      → lines ≡ before ++ line ∷ after
      → is_quit line ≡ true
      → length before + 1 < fuel
      → HasEnd fuel lines []

module _ (os : Os) (run : List ℕ → Download → Cmd os.World Download)
    (ends : (starts : List ℕ) (d : Download) → Ends (run starts d)) where
  open os use {World}

  run_client-Ends :
      (fuel : ℕ) (lines operands : List (List ℕ)) (client : Client)
      → HasEnd fuel lines operands
      → Ends (run_client os run fuel lines operands client)
  unfolding run_command
  run_client-Ends fuel lines _ client (one_command word words) =
      bind-Ends (run_command os run client (word ∷ words)) _
        (bind-Ends (send_command os client (join_words (word ∷ words))) _
          (send_command-Ends os client (join_words (word ∷ words)))
          (after_command-Ends os run ends))
        λ _. pure-Ends 0
  run_client-Ends fuel lines _ client (quits before line after parts h k) =
      bind-Ends (run_repl os fuel run client lines) _
        (rw parts (run_repl-quits os run ends fuel client before line after h k)) λ _. pure-Ends 0

  Settles-ne-stuck :
      {A : Type 0} (P : A → World → Type 0) (r : Outcome World A) → Settles P r → r ≢ stuck
  Settles-ne-stuck P (done a w) h e = cc
  Settles-ne-stuck P fault h e = h
  Settles-ne-stuck P (exited n) h e = cc
  Settles-ne-stuck P stuck h e = h

  connect_server-Ends : (client : Client) → Ends (connect_server os client)
  connect_server-Ends client w =
      Settles-ne-stuck (IsConnected os client) (connect_server os client w)
        (connect_server-IsConnected os client w)

  or_exit-Ends : {A : Type 0} (p : Parsed A) → Ends (or_exit os p)
  or_exit-Ends (parsed a) w e = cc
  or_exit-Ends (refused code) w e = cc

  -- The client program ends, on every answer of the system, if the threads of each download end and
  -- the command line has a command, or it has none and one of the lines of the input is a command to
  -- quit, with more rounds than there are lines up to that.
  pub client_main-Ends :
      (fuel : ℕ) (lines words : List (List ℕ))
      → HasEnd fuel lines (getopt client_kind words).operands
      → Ends (client_main os run fuel lines words)
  unfolding client_main
  client_main-Ends fuel lines words h =
      bind-Ends (or_exit os (parse_client words)) _ (or_exit-Ends (parse_client words)) λ client.
        bind-Ends (connect_server os (init client)) _ (connect_server-Ends (init client))
          λ connected. run_client-Ends fuel lines (getopt client_kind words).operands connected h
