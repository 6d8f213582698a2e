-- ===== src/Server/Workers/Turns.antt =====
-- The steps of a thread, one by one: what is to be shown of each for the invariant.
use cs_network_proj.Base.{
  ℕ, ◌≢◌, refl, sym, ap, ◌∙◌, ◌⊎◌, inl, inr, Bool, true, false, List, [], ◌∷◌, subst, arith, some,
  ◌==◌, if◌then◌else◌,
}
use cs_network_proj.Os.{Os}
use cs_network_proj.Util.ByteBuffer.{ByteBuffer}
use cs_network_proj.Server.Workers.{
  Registers, Reactor, Stage, events_of, member, spent, own_state, Agrees, Worker, Act, wake, leave,
  take_up, used_up, join, joined, begin, finish, register, let_go, remove, leaving,
}
use cs_network_proj.Server.Workers.Registrations.{
  Sets, Keeps, Refused, Tried, IsRearmed, rearmed, added-Tried,
}
use cs_network_proj.Server.Workers.Invariant.{
  member_other, IsTidy, Knows, Inv, Goes, HasBefore, AreDistinct-before,
}
use cs_network_proj.Server.Workers.Handling.{mine, Goes-finish, Goes-remove}
use cs_network_proj.Server.Workers.Waking.{
  Delivers, wait-Delivers, Goes-same, Goes-still, Goes-wake,
}
use cs_network_proj.Server.Workers.Steps.{handle-IsTidy, Goes-join, Goes-register}

module _ {os : Os} (registers : Registers os) where
  open os use {World}
  open registers use {enabled}

  -- What a call did to the registrations of its world, it did to those of the threads.
  Tried-Agrees :
      (m : Reactor) (fd : ℕ) (w w' : World)
      → Agrees registers w m
      → Tried registers fd w w'
      → Sets fd m.enabled (enabled w') ⊎ (Refused registers fd × Keeps m.enabled (enabled w'))
  Tried-Agrees m fd w w' agree (inl (mask, one, set)) =
      inl (mask, one, λ x. set x ∙ ap (λ o. if x == fd then some mask else o) (agree x))
  Tried-Agrees m fd w w' agree (inr (refused, same)) = inr (refused, λ x. same x ∙ agree x)

  Delivers-Agrees :
      (m : Reactor) (events : List ℕ) (w w' : World)
      → Agrees registers w m
      → Delivers events (enabled w) (enabled w')
      → Delivers events m.enabled (enabled w')
  Delivers-Agrees m events w w' agree (distinct, ready, change) = (
    distinct,
    (λ x h off. ready x h (agree x ∙ off)),
    λ x. change x ∙ ap (λ o. if member x events then spent o else o) (agree x),
  )

module _ {os : Os} {registers : Registers os} {listening : ℕ} {m : Reactor} {workers : ℕ → Worker}
    (inv : Inv registers listening m workers) (t : ℕ) where
  open os use {World}
  open inv use {tidy}
  open registers use {enabled}

  -- What is to be shown of a step to `m'`, and the stage `q`.
  abbrev pub Comes : Reactor → Stage → Type 0
  Comes m' q = Goes inv t m' (events_of q) × Knows listening m' q

  register-Comes :
      (fd : ℕ) (events : List ℕ) (stays : Bool) (w w' : World)
      → fd ≢ listening
      → HasBefore inv t (fd ∷ events)
      → Agrees registers w m
      → IsRearmed registers fd (m.session fd).status w stays w'
      → Comes (record m { enabled = enabled w' }) (leaving stays fd events)
  register-Comes fd events true w w' far e agree tried = (
    Goes-register inv t fd events (enabled w') far e (Tried-Agrees registers m fd w w' agree tried),
    tt,
  )
  register-Comes fd events false w w' far e agree (over, same) = (
    Goes-same inv t (enabled w') (fd ∷ events) (fd ∷ events) e (λ x. same x ∙ agree x)
        (AreDistinct-before inv t (fd ∷ events) e) (λ x _ h. h) (λ x _ h. inl h),
    (far, over),
  )

  pub Act-Comes :
      (buffer buffer' : ByteBuffer) (p q : Stage) (m' : Reactor)
      → HasBefore inv t (events_of p)
      → Knows listening m p
      → Act registers listening m buffer p m' q buffer'
      → Comes m' q
  Act-Comes buffer _ _ _ _ e k (wake events w w' on agree got) =
      let law =
        Delivers-Agrees registers m events w w' agree
          (wait-Delivers registers m.server.epoll w w' events got) in
      (Goes-wake inv t events (enabled w') law e, tt)
  Act-Comes buffer _ _ _ _ e k (leave off) = (Goes-still inv t [] e, tt)
  Act-Comes buffer _ _ _ _ e k (take_up {fd} {events}) = (Goes-still inv t (fd ∷ events) e, tt)
  Act-Comes buffer _ _ _ _ e k used_up = (Goes-still inv t [] e, tt)
  Act-Comes buffer _ _ _ _ e k (join {events} socket ok u u' w w' got new agree added) =
      let tried =
        Tried-Agrees registers m socket.fd w w' agree
          (added-Tried registers m.server.epoll socket.fd w w' ok added) in
      (Goes-join inv t socket new (enabled w') (listening ∷ events) e tried, tt)
  Act-Comes buffer _ _ _ _ e k (joined {events} w w' none_left) = (
    Goes-same inv t m.enabled (listening ∷ events) events e (λ x. refl)
        (AreDistinct-before inv t (listening ∷ events) e).1 (λ x _ h. ground (arith, h))
        (λ x far h. inl (sym (member_other x listening events far) ∙ h)),
    tt,
  )
  Act-Comes buffer _ _ _ _ e k (begin {fd} {events} far) =
      (Goes-still inv t (fd ∷ events) e, (far, refl))
  Act-Comes buffer _ _ _ _ e k (finish {fd} {s} {events} s' w w' ran) =
      let (far, same) = k in
      let (_, here) = mine inv t fd events far e in
      let before : IsTidy s = subst IsTidy (sym same) (tidy fd far here) in
      let has_file = handle-IsTidy os m.server buffer s s' w w' before ran in
      (Goes-finish inv t fd events far e s' (refl, has_file), far)
  Act-Comes buffer _ _ _ _ e k (register {fd} {events} stays w w' agree ran) =
      register-Comes fd events stays w w' k e agree
        (rearmed registers (m.session fd).status (own_state fd m) w w' stays ran)
  Act-Comes buffer _ _ _ _ e k (let_go {fd} {events}) = (Goes-still inv t events e, tt)
  Act-Comes buffer _ _ _ _ e k (remove {fd} {events}) =
      let (far, over) = k in (Goes-remove inv t fd events far e, tt)
