-- ===== src/Server/Workers/Registrations.antt =====
-- What the calls of the listeners leave registered in the epoll.
use cs_network_proj.Base.{
  ℕ, ◌≡◌, refl, ap, ◌∙◌, ◌⊎◌, inl, inr, Bool, true, false, Bool-cases, some, List, update,
  if◌then◌else◌, subst,
}
use cs_network_proj.Base.Int.{ℤ}
use cs_network_proj.Base.Outcome.{done, Ensures, Outcome}
use cs_network_proj.Os.{Os, EpollFlag, epollin, epollout}
use cs_network_proj.Server.Epoll.{add_fd, modify_fd, succeeded}
use cs_network_proj.Server.Instance.{Epoll}
use cs_network_proj.Server.Session.State.{SessionStatus, reading, writing, ended, State}
use cs_network_proj.Server.Listeners.{one_shot, rearm}
use cs_network_proj.Server.Workers.{Registered, Registers, is_one_shot}

-- The registration of a connection for one event, and no other change.
abbrev pub Sets : ℕ → Registered → Registered → Type 0
Sets fd before after =
    (mask : List EpollFlag) × (is_one_shot mask ≡ true)
    × ((x : ℕ) → after x ≡ update before fd (some mask) x)

abbrev pub Keeps : Registered → Registered → Type 0
Keeps before after = (x : ℕ) → after x ≡ before x

module _ {os : Os} (registers : Registers os) where
  open os use {World}
  open registers use {enabled, modified, added}

  -- A call that registers the descriptor and that the system refuses.
  abbrev pub Refused : ℕ → Type 0
  Refused fd =
      (w : World) × (w' : World) × (epoll : ℤ) × (mask : List EpollFlag) × (code : ℤ)
      × ((os.epoll_modify w epoll fd mask ≡ (code, w'))
          ⊎ (os.epoll_add w epoll fd mask ≡ (code, w')))
      × (succeeded code ≡ false)

  abbrev pub Tried : ℕ → World → World → Type 0
  Tried fd w w' = Sets fd (enabled w) (enabled w') ⊎ (Refused fd × Keeps (enabled w) (enabled w'))

  module _ (w w' : World) (epoll code : ℤ) (fd : ℕ) (mask : List EpollFlag)
      (one : is_one_shot mask ≡ true)
      (call : (os.epoll_modify w epoll fd mask ≡ (code, w'))
        ⊎ (os.epoll_add w epoll fd mask ≡ (code, w')))
      (law : (x : ℕ)
        → enabled w' x
          ≡ (if succeeded code then update (enabled w) fd (some mask) x else enabled w x)) where
    Tried-call : Tried fd w w'
    Tried-call = elim (Bool-cases (succeeded code)) [
      | inl good ↦ inl (
        mask,
        one,
        λ x. law x ∙ ap (λ b. if b then update (enabled w) fd (some mask) x else enabled w x) good,
      )
      | inr bad ↦ inr (
        (w, w', epoll, mask, code, call, bad),
        λ x. law x ∙ ap (λ b. if b then update (enabled w) fd (some mask) x else enabled w x) bad,
      )
    ]

  modify-Tried :
      (epoll : ℤ) (fd : ℕ) (flag : EpollFlag) (w : World)
      → is_one_shot (one_shot flag) ≡ true
      → Tried fd w (os.epoll_modify w epoll fd (one_shot flag)).1
  modify-Tried epoll fd flag w one =
      Tried-call w _ epoll (os.epoll_modify w epoll fd (one_shot flag)).0 fd (one_shot flag) one
        (inl refl) (modified w _ epoll _ fd (one_shot flag) refl)

  -- What becomes of the registration where a listener asks for one more event.
  abbrev pub IsRearmed : ℕ → SessionStatus → World → Bool → World → Type 0
  IsRearmed fd status w true w' = Tried fd w w'
  IsRearmed fd status w false w' = (status ≡ ended) × Keeps (enabled w) (enabled w')

  rearm-IsRearmed :
      (status : SessionStatus) (s : State) (w : World)
      → Ensures (IsRearmed s.conn_socket.fd status w) (rearm os status s w)
  unfolding rearm modify_fd
  rearm-IsRearmed reading s w = modify-Tried s.server.epoll.fd s.conn_socket.fd epollin w refl
  rearm-IsRearmed writing s w = modify-Tried s.server.epoll.fd s.conn_socket.fd epollout w refl
  rearm-IsRearmed ended s w = (refl, λ x. refl)

  pub rearmed :
      (status : SessionStatus) (s : State) (w w' : World) (stays : Bool)
      → rearm os status s w ≡ done stays w'
      → IsRearmed s.conn_socket.fd status w stays w'
  rearmed status s w w' stays e =
      subst (Ensures (IsRearmed s.conn_socket.fd status w)) e (rearm-IsRearmed status s w)

  pub added-Tried :
      (epoll : Epoll) (fd : ℕ) (w w' : World) (ok : Bool)
      → add_fd os epoll fd (one_shot epollin) w ≡ done ok w'
      → Tried fd w w'
  unfolding add_fd
  added-Tried epoll fd w w' ok e =
      let (code, v) = os.epoll_add w epoll.fd fd (one_shot epollin) in
      let tried : Tried fd w v =
        Tried-call w v epoll.fd code fd (one_shot epollin) refl (inr refl)
          (added w v epoll.fd code fd (one_shot epollin) refl) in
      let same : Outcome World Bool → Type 0 = λ r. Ensures (λ _ u. Tried fd w u) r in
      subst same e tried
