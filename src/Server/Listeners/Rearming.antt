-- ===== src/Server/Listeners/Rearming.antt =====
-- How the listener of a connection leaves the session and the epoll behind an event.
use cs_network_proj.Base.{◌≡◌, refl, Bool, true, false, none}
use cs_network_proj.Base.Outcome.{pure, Holds, Holds-next, and_then}
use cs_network_proj.Os.{Os, EpollFlag, epollin, epollout}
use cs_network_proj.Util.ByteBuffer.{ByteBuffer}
use cs_network_proj.Server.Session.State.{
  SessionStatus, reading, writing, ended, State, attach_buffer, detach_buffer, with_session,
}
use cs_network_proj.Server.Session.Handle.{handle}
use cs_network_proj.Server.Session.Handle.Invariant.{HasFile, handle-HasFile}
use cs_network_proj.Server.Listeners.{one_shot, shared_buffer, rearm, on_connection_event}

module _ (os : Os) where
  open os use {World}

  -- The last thing was to register the connection again, for one event of a kind.
  abbrev pub IsRegistered : EpollFlag → State → World → Type 0
  IsRegistered flag s w =
      (v : World) × (w ≡ (os.epoll_modify v s.server.epoll.fd s.conn_socket.fd (one_shot flag)).1)

  abbrev pub IsArmed : SessionStatus → Bool → State → World → Type 0
  IsArmed reading keep s w = (keep ≡ true) × IsRegistered epollin s w
  IsArmed writing keep s w = (keep ≡ true) × IsRegistered epollout s w
  IsArmed ended keep s w = keep ≡ false

  rearm-IsArmed :
      (status : SessionStatus) (s : State) (w : World)
      → Holds (λ keep w'. IsArmed status keep s w') (rearm os status s w)
  unfolding rearm
  rearm-IsArmed reading s w = (refl, (w, refl))
  rearm-IsArmed writing s w = (refl, (w, refl))
  rearm-IsArmed ended s w = refl

  -- What is left of an event.
  abbrev pub IsLeft : Bool × State × ByteBuffer → World → Type 0
  IsLeft (keep, s, buffer) w = (s.read_buffer ≡ none) × HasFile s × IsArmed s.status keep s w

  after_handle-IsLeft :
      (buffer : ByteBuffer) (s s' : State) (w : World)
      → HasFile s'
      → s'.read_buffer ≡ none
      → Holds IsLeft (
          and_then
            (rearm os s'.status s' w)
            (λ keep. pure (keep, s', shared_buffer buffer s.read_buffer)))
  after_handle-IsLeft buffer s s' w h e =
      Holds-next (λ keep w'. IsArmed s'.status keep s' w') IsLeft (rearm os s'.status s' w) _
        (rearm-IsArmed s'.status s' w) (λ keep w' armed. (e, h, armed))

  -- An event that returns lets go of the thread's buffer and leaves a writing session its file. The
  -- listener is dropped exactly when the session has ended; else it is registered for one more
  -- event, to write if the session writes and to read if it reads.
  pub on_connection_event-IsLeft :
      (buffer : ByteBuffer) (s : State) (w : World)
      → HasFile s
      → Holds IsLeft (on_connection_event os buffer s w)
  unfolding on_connection_event
  on_connection_event-IsLeft buffer s w h =
      let attached = with_session s (attach_buffer buffer s.session) in
      Holds-next (λ s' _. HasFile s') IsLeft (handle os attached w) _
        (handle-HasFile os attached w h)
        λ s' w' h'.
          after_handle-IsLeft buffer s' (with_session s' (detach_buffer s'.session)) w' h' refl
