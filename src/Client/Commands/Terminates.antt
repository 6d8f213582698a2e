-- ===== src/Client/Commands/Terminates.antt =====
-- Sending a command ends, and so does handling the response if the threads of a download end.
use cs_network_proj.Base.{
  ℕ, ◌≡◌, ◌≢◌, refl, Bool, true, false, Bool-cases, inl, inr, Option, none, some, List, [], ◌∷◌,
  ◌++◌, arith, codes,
}
use cs_network_proj.Base.Outcome.{
  stuck, Cmd, Ends, bind-Ends, pure-Ends, deref-Ends, Holds, Holds-bind, Holds-next, deref, pure,
  ◌>>=◌,
}
use cs_network_proj.Os.{Os}
use cs_network_proj.Util.ByteBuffer.{ByteBuffer, concat}
use cs_network_proj.Util.ByteBuffer.Memory.{load_ulong, store_ulong}
use cs_network_proj.Util.File.{File, file_of, open_path}
use cs_network_proj.Util.StringUtil.Split.{split-words, words}
use cs_network_proj.Protocol.{
  ResponsePacket, command, download_info, send_request, receive_response,
}
use cs_network_proj.Client.DownloadManager.Resume.{Download, download_wait}
use cs_network_proj.Client.DownloadManager.Resume.Terminates.{download_wait-Ends}
use cs_network_proj.Protocol.Terminates.{send_request-Ends, receive_response-Ends}
use cs_network_proj.Client.Commands.{
  or_new, with_dest, request_info, send_download, send_text, send_words, is_download,
  handle_download_info, Client, send_command, handle_packet, handle_response, after_command,
}

module _ (os : Os) where
  open os use {World}

  or_new-Ends : (dest : List ℕ) (f : Option File) → Ends (or_new os dest f)
  unfolding open_path
  or_new-Ends dest (some f) w e = cc
  or_new-Ends dest none w e = cc

  request_info-Ends : (client : Client) (f : Option File) → Ends (request_info os client f)
  request_info-Ends client none = pure-Ends (false, record client { dest_file = none })
  request_info-Ends client (some f) =
      let request = concat (store_ulong 0 ++ store_ulong 0) client.src_file in
      bind-Ends (deref client.socket) _ (deref-Ends client.socket) λ socket.
        bind-Ends (send_request os socket download_info request) _
          (send_request-Ends os socket download_info request)
          λ sent. pure-Ends (with_dest (record client { dest_file = some f }) sent)

  send_download-Ends :
      (client : Client) (given : List (List ℕ)) → Ends (send_download os client given)
  unfolding open_path
  send_download-Ends client [] w = pure-Ends (false, client) w
  send_download-Ends client (a ∷ []) w = pure-Ends (false, client) w
  send_download-Ends client (a ∷ b ∷ []) w = pure-Ends (false, client) w
  send_download-Ends client (a ∷ b ∷ c ∷ d ∷ others) w = pure-Ends (false, client) w
  send_download-Ends client (a ∷ src ∷ dest ∷ []) w =
      bind-Ends (open_path os dest (codes "r+b")) _ (λ u e. cc)
        (λ opening.
          bind-Ends (or_new os dest (file_of opening)) _ (or_new-Ends dest (file_of opening))
            λ f. request_info-Ends (record client { src_file = src }) f)
        w

  send_text-Ends : (client : Client) (text : List ℕ) → Ends (send_text os client text)
  send_text-Ends client text =
      bind-Ends (deref client.socket) _ (deref-Ends client.socket) λ socket.
        bind-Ends (send_request os socket command text) _ (send_request-Ends os socket command text)
          λ sent. pure-Ends _

  send_words-Ends :
      (client : Client) (text : List ℕ) (given : List (List ℕ))
      → Ends (send_words os client text given)
  send_words-Ends client text [] w = pure-Ends (false, client) w
  send_words-Ends client text (word ∷ rest) w = elim (Bool-cases (is_download word)) [
    | inl e ↦ rw e (send_download-Ends client (word ∷ rest) w)
    | inr e ↦ rw e (send_text-Ends client text w)
  ]

  pub send_command-Ends : (client : Client) (text : List ℕ) → Ends (send_command os client text)
  unfolding send_command
  send_command-Ends client text w =
      let e = split-words text (codes " ") in
      rw e (send_words-Ends client text (words (codes " ") text) w)

  -- A response leaves open whether the loop goes on.
  abbrev pub Keeps : Bool → List ℕ × Client → World → Type 0
  Keeps active answer w = answer.1.active ≡ active

  module _ (run : List ℕ → Download → Cmd World Download)
      (ends : (starts : List ℕ) (d : Download) → Ends (run starts d)) where
    handle_download_info-Ends :
        (client : Client) (response : ByteBuffer)
        → Ends (handle_download_info os run client response)
    unfolding handle_download_info
    handle_download_info-Ends client response =
        bind-Ends (deref (load_ulong response 0 8)) _ (deref-Ends (load_ulong response 0 8)) λ n.
          bind-Ends (deref client.dest_file) _ (deref-Ends client.dest_file) λ dest.
            bind-Ends (download_wait os run client.download_threads client.src_file dest n) _
              (download_wait-Ends os run client.download_threads client.src_file dest n ends)
              λ _. pure-Ends (record client { dest_file = none })

    -- The branch of a reply that starts a download.
    abbrev handle_reply : Client → ByteBuffer → ByteBuffer → Cmd World (List ℕ × Client)
    handle_reply client buffer content =
        handle_download_info os run (record client { read_buffer = buffer }) content >>= λ client''.
        pure ([], client'')

    handle_packet-Ends :
        (client : Client) (response : Option ResponsePacket × ByteBuffer)
        → Ends (handle_packet os run client response)
    handle_packet-Ends client (none, buffer) w = λ e. cc
    handle_packet-Ends client (some resp, buffer) w =
        let reply : handle_reply client buffer resp.content w ≢ stuck =
          bind-Ends
            (handle_download_info os run (record client { read_buffer = buffer }) resp.content) _
            (handle_download_info-Ends (record client { read_buffer = buffer }) resp.content)
            (λ client''. pure-Ends ([], client'')) w in
        ground (arith, reply)

    pub after_command-Ends : (answer : Bool × Client) → Ends (after_command os run answer)
    unfolding handle_response
    after_command-Ends (false, client) = pure-Ends _
    after_command-Ends (true, client) =
        bind-Ends (deref client.socket) _ (deref-Ends client.socket) λ socket.
          bind-Ends (receive_response os socket client.read_buffer) _
            (receive_response-Ends os socket client.read_buffer) (handle_packet-Ends client)

    handle_download_info-Keeps :
        (client : Client) (response : ByteBuffer) (w : World)
        → Holds
            (λ (c : Client) _. c.active ≡ client.active)
            (handle_download_info os run client response w)
    unfolding handle_download_info
    handle_download_info-Keeps client response w =
        let Q : Client → World → Type 0 = λ c _. c.active ≡ client.active in
        Holds-bind Q (deref (load_ulong response 0 8) w) _ λ n v.
          Holds-bind Q (deref client.dest_file v) _ λ dest u.
            Holds-bind Q (download_wait os run client.download_threads client.src_file dest n u) _
              λ _ _. refl

    handle_packet-Keeps :
        (client : Client) (response : Option ResponsePacket × ByteBuffer) (w : World)
        → Holds (Keeps client.active) (handle_packet os run client response w)
    unfolding handle_download_info
    handle_packet-Keeps client (none, buffer) w = tt
    handle_packet-Keeps client (some resp, buffer) w =
        let Q = Keeps client.active in
        let client' = record client { read_buffer = buffer } in
        let reply : Holds Q (handle_reply client buffer resp.content w) =
          Holds-next (λ c _. c.active ≡ client.active) Q
            (handle_download_info os run client' resp.content w) _
            (handle_download_info-Keeps client' resp.content w) (λ _ _ e. e) in
        ground (arith, reply)

    pub after_command-Keeps :
        (answer : Bool × Client) (w : World)
        → Holds (Keeps answer.1.active) (after_command os run answer w)
    unfolding handle_response
    after_command-Keeps (false, client) w = refl
    after_command-Keeps (true, client) w =
        let Q = Keeps client.active in
        Holds-bind Q (deref client.socket w) _ λ socket v.
          Holds-bind Q (receive_response os socket client.read_buffer v) _
            λ response u. handle_packet-Keeps client response u
