-- ===== src/Programs/ServerMain/Settled.antt =====
-- How the server program ends, for all its arguments and all answers of the system.
use cs_network_proj.Base.{
  ℕ, suc, ◌%◌, ◌^◌, ◌<◌, ◌≡◌, refl, ap, ◌∙◌, ◌⊎◌, Bool, some, List, [], ◌∷◌, arith, length, codes,
}
use cs_network_proj.Base.Int.{ℤ, pos}
use cs_network_proj.Base.Outcome.{aborted, Outcome, done, fault, exited, stuck}
use cs_network_proj.Os.{Os}
use cs_network_proj.Server.Instance.{Server}
use cs_network_proj.Server.ThreadPool.{Thread, decimal}
use cs_network_proj.Programs.Arguments.{Opt, given, Parsed, parsed, refused, stoi}
use cs_network_proj.Programs.Arguments.Decimals.{stoi-decimal}
use cs_network_proj.Programs.ServerMain.{set_server, server_params, default_server, parse_server}

-- How a process ends that runs into no undefined behaviour.
abbrev pub IsExit : ℕ → Type 0
IsExit code = (code ≡ 1) ⊎ (code ≡ aborted)

abbrev IsParsed : Parsed Server → Type 0
IsParsed (parsed s) = Unit {0}
IsParsed (refused code) = IsExit code

-- What a run with so many threads comes to: it returns 0 if there is one, it is undefined if there is
-- none, or it has ended the process, as it does of a negative number.
abbrev pub IsRun : {W : Type 0} → ℤ → Outcome W ℕ → Type 0
IsRun n (done code w) = (code ≡ 0) × ((m : ℕ) × (n ≡ pos (suc m)))
IsRun n fault = n ≡ pos 0
IsRun n (exited code) = IsExit code
IsRun n stuck = ⊥

module _ (os : Os) where
  open os use {World}

  abbrev HasLength : ℕ → Bool × List Thread → World → Type 0
  HasLength n r w = length r.1 ≡ n

  -- The program ended in reading its arguments, or it ran with the threads that they ask for.
  abbrev pub IsMain : Parsed Server → Outcome World ℕ → Type 0
  IsMain (refused code) r = IsExit code × (r ≡ exited code)
  IsMain (parsed s) r = IsRun s.thread_num r

server_params-given :
    (s : Server) (c : ℕ) (text : List ℕ) (v : ℤ) (os : List Opt)
    → stoi text ≡ some v
    → server_params s (given c text ∷ os) ≡ server_params (set_server s c v) os
unfolding server_params
server_params-given s c text v os h = rw (h, server_params) refl

-- A port and a number of threads that are printed behind their options are what the server gets.
pub parse_server-printed :
    (port threads : ℕ)
    → port < 2 ^ 16
    → threads < 2 ^ 31
    → parse_server
        (codes "-p" ∷ decimal (suc port) port ∷ codes "-t" ∷ decimal (suc threads) threads ∷ [])
      ≡ parsed (record default_server { port = port; thread_num = pos threads })
unfolding parse_server server_params
parse_server-printed port threads h k =
    let e = stoi-decimal (suc port) port (omega arith) (omega arith) in
    let f = stoi-decimal (suc threads) threads (omega arith) (omega arith) in
    let whole : port % 2 ^ 16 ≡ port = omega arith in
    let given_port : Server = record default_server { port = port } in
    server_params-given default_server b'p' (decimal (suc port) port) (pos port)
      (given b't' (decimal (suc threads) threads) ∷ []) e
    ∙ ap
        (λ n.
          server_params (record default_server { port = n })
            (given b't' (decimal (suc threads) threads) ∷ []))
        whole
    ∙ server_params-given given_port b't' (decimal (suc threads) threads) (pos threads) [] f
