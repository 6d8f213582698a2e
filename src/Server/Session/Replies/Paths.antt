-- ===== src/Server/Session/Replies/Paths.antt =====
-- What a reply puts on the wire, and which paths a client may name.
use cs_network_proj.Base.{
  ℕ, ◌≡◌, ◌≢◌, refl, sym, ap, ◌∙◌, ◌⊎◌, inl, inr, true, false, List, [], ◌∷◌, ◌++◌, arith, length,
  drop, drop-append_length, length-append, Bool-cases, ◌==◌, ==_iff, codes, c_str, is_prefix,
  is_prefix-append, append_of_is_prefix,
}
use cs_network_proj.Base.Outcome.{done, pure, Ensures, Ensures-bind}
use cs_network_proj.Os.{Os, WritesStream}
use cs_network_proj.Util.ByteBuffer.{ByteBuffer}
use cs_network_proj.Util.Rio.{rio_writen}
use cs_network_proj.Util.Rio.Writes.{IsWritten, IsCut, rio_writen-IsWritten}
use cs_network_proj.Protocol.{ResponseType, plain_text, response_byte, packet}
use cs_network_proj.Server.Session.State.{Session, bad_chars, has_any, share_root}
use cs_network_proj.Server.Session.Replies.{send_response, say, bad_path, validate_path}

-- The directory that is served, and what a path under it is resolved to.
abbrev pub root_dir : (os : Os) → os.World → List ℕ
root_dir os w = c_str (os.getcwd w) ++ (codes "/" ++ share_root)

abbrev pub real_path : (os : Os) → os.World → List ℕ → List ℕ
real_path os w path = c_str (os.realpath w (share_root ++ (codes "/" ++ path)))

abbrev pub StartsWithRoot : (os : Os) → os.World → List ℕ → Type 0
StartsWithRoot os w path = (rest : List ℕ) × (real_path os w path ≡ root_dir os w ++ rest)

module _ (os : Os) (stream : WritesStream os) where
  open os use {World}
  open stream use {sent}

  -- The packet went out, or a proper prefix of it, and the system took nothing of the rest.
  abbrev pub Replied : Session → ResponseType → ByteBuffer → World → World → Type 0
  Replied s type content w w' =
      let block = packet (response_byte type) content in
      (sent w' s.conn_socket.fd ≡ sent w s.conn_socket.fd ++ block)
      ⊎ IsCut os stream s.conn_socket.fd (sent w s.conn_socket.fd) block w'

  IsWritten-Replied :
      (s : Session) (type : ResponseType) (content : ByteBuffer) (w w' : World) (n : ℕ)
      → IsWritten os stream s.conn_socket.fd
          (sent w s.conn_socket.fd)
          (packet (response_byte type) content)
          n
          w'
      → Replied s type content w w'
  IsWritten-Replied s type content w w' n (inl (e, all)) = inl all
  IsWritten-Replied s type content w w' n (inr (e, cut)) = inr cut

  all_sent :
      (s : Session) (type : ResponseType) (content : ByteBuffer) (w w' : World) (n : ℕ)
      → let block = packet (response_byte type) content in
        IsWritten os stream s.conn_socket.fd (sent w s.conn_socket.fd) block n w'
        → (n == length block) ≡ true
        → sent w' s.conn_socket.fd ≡ sent w s.conn_socket.fd ++ block
  all_sent s type content w w' n (inl (e, all)) h = all
  all_sent s type content w w' n (inr (e, (k, less, _, _))) h =
      absurd (omega (arith, (==_iff n (length (packet (response_byte type) content))).0 h))

  -- `sendResponse` returns, and a true result says that the whole packet went out.
  pub send_response-Replied :
      (s : Session) (type : ResponseType) (content : ByteBuffer) (w : World)
      → Ensures
          (λ ok w'.
            Replied s type content w w'
            × (ok ≡ true
                → sent w' s.conn_socket.fd
                  ≡ sent w s.conn_socket.fd ++ packet (response_byte type) content))
          (send_response os s type content w)
  unfolding send_response
  send_response-Replied s type content w =
      let block = packet (response_byte type) content in
      Ensures-bind (IsWritten os stream s.conn_socket.fd (sent w s.conn_socket.fd) block) _
        (rio_writen os s.conn_socket.fd block w) (λ n. pure (n == length block))
        (rio_writen-IsWritten os stream s.conn_socket.fd block w)
        λ n w' written.
          (IsWritten-Replied s type content w w' n written, all_sent s type content w w' n written)

  pub say-Replied :
      (s : Session) (text : List ℕ) (w : World)
      → Ensures (λ _ w'. Replied s plain_text text w w') (say os s text w)
  unfolding say
  say-Replied s text w =
      Ensures-bind _ (λ _ w'. Replied s plain_text text w w') (send_response os s plain_text text w)
        (λ _. pure tt) (send_response-Replied s plain_text text w) (λ ok w' r. r.0)

  -- A path is resolved and handed on, or refused with a message and the empty path.
  abbrev pub Checked : Session → List ℕ → World → List ℕ → World → Type 0
  Checked s path w result w' =
      ((has_any bad_chars (c_str path) ≡ false)
        × StartsWithRoot os w path
        × (result ≡ real_path os w path)
        × (w' ≡ w))
      ⊎ (((has_any bad_chars (c_str path) ≡ true) ⊎ (¬ StartsWithRoot os w path))
          × (result ≡ [])
          × Replied s plain_text (codes "Bad file path\n") w w')

  refused :
      (s : Session) (path : List ℕ) (w : World)
      → (has_any bad_chars (c_str path) ≡ true) ⊎ (¬ StartsWithRoot os w path)
      → Ensures (Checked s path w) (bad_path os s w)
  refused s path w why =
      Ensures-bind _ (Checked s path w) (say os s (codes "Bad file path\n") w) (λ _. pure [])
        (say-Replied s (codes "Bad file path\n") w) (λ _ w' replied. inr (why, refl, replied))

  outside :
      (w : World) (path : List ℕ)
      → is_prefix (root_dir os w) (real_path os w path) ≡ false
      → ¬ StartsWithRoot os w path
  outside w path h (rest, e) =
      ground (arith, ap (is_prefix (root_dir os w)) e, is_prefix-append (root_dir os w) rest)

  -- A path is accepted exactly when it holds no character that is special to the shell and the
  -- text of its resolved form starts with that of the served directory; any other gets the
  -- message, or a proper prefix of it if the socket takes nothing of the rest, and yields the empty
  -- path.
  pub validate_path-Checked :
      (s : Session) (path : List ℕ) (w : World)
      → Ensures (Checked s path w) (validate_path os s path w)
  unfolding validate_path
  validate_path-Checked s path w = elim (Bool-cases (has_any bad_chars (c_str path))) [
    | inl bad ↦ rw bad (refused s path w (inl bad))
    | inr clean ↦ elim (Bool-cases (is_prefix (root_dir os w) (real_path os w path))) [
      | inl under ↦ rw (clean, under) (inl (clean, append_of_is_prefix _ _ under, refl, refl))
      | inr not_under ↦ rw (clean, not_under) (refused s path w (inr (outside w path not_under)))
    ]
  ]

module _ (os : Os) where
  open os use {World}

  -- A file of the served directory, or that directory itself.
  abbrev pub IsInside : World → List ℕ → Type 0
  IsInside w real =
      (real ≡ root_dir os w) ⊎ ((rest : List ℕ) × (real ≡ root_dir os w ++ (codes "/" ++ rest)))

  apart_from_root :
      (w : World) (c : ℕ) (rest : List ℕ) → c ≢ b'/' → ¬ IsInside w (root_dir os w ++ c ∷ rest)
  apart_from_root w c rest apart (inl e) =
      omega (arith, ap length e, length-append (root_dir os w) (c ∷ rest))
  apart_from_root w c rest apart (inr (rest', e)) =
      let tails : c ∷ rest ≡ b'/' ∷ rest' =
        sym (drop-append_length _ (root_dir os w) (c ∷ rest) refl)
        ∙ ap (drop (length (root_dir os w))) e
        ∙ drop-append_length _ (root_dir os w) (codes "/" ++ rest') refl in
      apart (cc)

  -- The test compares texts and not directories: a path that leads to a sibling of the served
  -- directory, whose name goes on behind `share`, is accepted.
  pub validate_path_sibling :
      (s : Session) (path rest : List ℕ) (c : ℕ) (w : World)
      → has_any bad_chars (c_str path) ≡ false
      → c ≢ b'/'
      → real_path os w path ≡ root_dir os w ++ c ∷ rest
      → (validate_path os s path w ≡ done (root_dir os w ++ c ∷ rest) w)
        × (¬ IsInside w (root_dir os w ++ c ∷ rest))
  unfolding validate_path
  validate_path_sibling s path rest c w clean apart e =
      let under : is_prefix (root_dir os w) (real_path os w path) ≡ true =
        ap (is_prefix (root_dir os w)) e ∙ is_prefix-append (root_dir os w) (c ∷ rest) in
      (rw (clean, under) (ap (λ l. done l w) e), apart_from_root w c rest apart)
