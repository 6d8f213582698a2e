-- ===== src/Client/Commands/Repl.antt =====
-- When the interactive client ends.
use cs_network_proj.Base.{
  ℕ, zero, suc, ◌+◌, ◌<◌, ◌≡◌, ◌≢◌, refl, sym, Bool, true, false, Bool-cases, inl, inr, some, List,
  [], ◌∷◌, ◌++◌, length, arith, codes, text_eq, text_eq_iff, subst, if◌then◌else◌,
}
use cs_network_proj.Base.Outcome.{
  stuck, Cmd, Ends, ne-stuck-next, Outcome, Holds, Holds-bind, Holds-trivial, deref, ◌>>=◌,
}
use cs_network_proj.Os.{Os}
use cs_network_proj.Util.StringUtil.{split, split_loop}
use cs_network_proj.Protocol.{command, send_request}
use cs_network_proj.Client.DownloadManager.Resume.{Download}
use cs_network_proj.Client.Commands.Terminates.{
  Keeps, send_command-Ends, after_command-Ends, after_command-Keeps,
}
use cs_network_proj.Client.Commands.{
  is_download, Client, is_quit, send_command, after_command, run_repl,
}

quit_words :
    (text : List ℕ)
    → is_quit text ≡ true
    → (split text (codes " ") ≡ some (text ∷ [])) × (is_download text ≡ false)
unfolding split split_loop text_eq
quit_words text h = elim (Bool-cases (text_eq text (codes "quit"))) [
  | inl e ↦ rw ((text_eq_iff text (codes "quit")).0 e) (refl, refl)
  | inr n ↦ elim (Bool-cases (text_eq text (codes "q"))) [
    | inl e ↦ rw ((text_eq_iff text (codes "q")).0 e) (refl, refl)
    | inr m ↦
        let e : text_eq text (codes "shutdown") ≡ true = ground (arith, h) in
        rw ((text_eq_iff text (codes "shutdown")).0 e) (refl, refl)
  ]
]

if-ne-stuck :
    {W A : Type 0} (b : Bool) (x y : Outcome W A)
    → x ≢ stuck
    → y ≢ stuck
    → (if b then x else y) ≢ stuck
if-ne-stuck true x y h k = h
if-ne-stuck false x y h k = k

module _ (os : Os) where
  open os use {World}

  -- At the end of the input the loop never ends: each round reads an empty line, which is refused.
  pub run_repl-spins :
      (run : List ℕ → Download → Cmd World Download) (fuel : ℕ) (client : Client) (w : World)
      → client.active ≡ true
      → run_repl os fuel run client [] w ≡ stuck
  unfolding run_repl send_command
  run_repl-spins run zero client w h = refl
  run_repl-spins run (suc fuel) client w h = simp (h, run_repl-spins run fuel client w h)

  quits_lem :
      (client : Client) (text : List ℕ) (w : World)
      → is_quit text ≡ true
      → split text (codes " ") ≡ some (text ∷ [])
      → is_download text ≡ false
      → Holds (λ answer _. answer.1.active ≡ false) (send_command os client text w)
  unfolding send_command
  quits_lem client text w h one plain =
      let Q : Bool × Client → World → Type 0 = λ answer _. answer.1.active ≡ false in
      rw (one, plain)
        (Holds-bind Q (deref client.socket w) _ λ socket v.
          Holds-bind Q (send_request os socket command text v) _ λ sent u. ground (arith, h))

  -- The command to quit, in its three spellings.
  send_command-quits :
      (client : Client) (text : List ℕ) (w : World)
      → is_quit text ≡ true
      → Holds (λ answer _. answer.1.active ≡ false) (send_command os client text w)
  send_command-quits client text w h =
      let (one, plain) = quit_words text h in quits_lem client text w h one plain

  run_repl-idle :
      (run : List ℕ → Download → Cmd World Download) (fuel : ℕ) (client : Client)
      (lines : List (List ℕ)) (w : World)
      → 0 < fuel
      → client.active ≡ false
      → run_repl os fuel run client lines w ≢ stuck
  unfolding run_repl
  run_repl-idle run zero client lines w h over = absurd (omega arith)
  run_repl-idle run (suc fuel) client lines w h over = simp over (λ e. cc)

  -- One round, before the rest of the loop.
  round_lem :
      (run : List ℕ → Download → Cmd World Download)
      → ((starts : List ℕ) (d : Download) → Ends (run starts d))
      → (P : Bool → Type 0) (next : Client → Cmd World Client) (client : Client) (line : List ℕ)
        (w : World)
      → Holds (λ answer _. P answer.1.active) (send_command os client line w)
      → ((c : Client) (v : World) → P c.active → next c v ≢ stuck)
      → (do answer ← send_command os client line; (_, c) ← after_command os run answer; next c) w
        ≢ stuck
  round_lem run ends P next client line w h goes_on =
      ne-stuck-next (λ answer _. P answer.1.active) (send_command os client line w) _
        (send_command-Ends os client line w) h
        λ answer v p.
          ne-stuck-next (Keeps os answer.1.active) (after_command os run answer v) _
            (after_command-Ends os run ends answer v) (after_command-Keeps os run ends answer v)
            λ (_, c) u same. goes_on c u (subst P (sym same) p)

  -- The interactive client ends if one of the lines is a command to quit, and the threads of each
  -- download end.
  pub run_repl-quits :
      (run : List ℕ → Download → Cmd World Download)
      → ((starts : List ℕ) (d : Download) → Ends (run starts d))
      → (fuel : ℕ) (client : Client) (before : List (List ℕ)) (line : List ℕ)
        (after : List (List ℕ))
      → is_quit line ≡ true
      → length before + 1 < fuel
      → Ends (run_repl os fuel run client (before ++ line ∷ after))
  unfolding run_repl
  run_repl-quits run ends zero client before line after h k w = absurd (omega arith)
  run_repl-quits run ends (suc fuel) client [] line after h k w =
      let goes_on =
        round_lem run ends (λ a. a ≡ false) (λ c. run_repl os fuel run c after) client line w
          (send_command-quits client line w h)
          λ c v over. run_repl-idle run fuel c after v (omega arith) over in
      if-ne-stuck client.active _ _ goes_on (λ e. cc)
  run_repl-quits run ends (suc fuel) client (other ∷ before) line after h k w =
      let goes_on =
        round_lem run ends (λ _. Unit) (λ c. run_repl os fuel run c (before ++ line ∷ after)) client
          other w (Holds-trivial (send_command os client other w))
          λ c v _. run_repl-quits run ends fuel c before line after h (omega arith) v in
      if-ne-stuck client.active _ _ goes_on (λ e. cc)
