-- ===== src/Server/Workers/Waking.antt =====
-- What a thread gets from `epoll_wait`, and what changes where a thread keeps its events.
use cs_network_proj.Base.{
  ℕ, ◌≡◌, ◌≢◌, refl, sym, ap, ◌∙◌, ◌⊎◌, inl, inr, Bool, true, false, Bool-cases, Option-cases, none,
  some, List, [], subst, if◌then◌else◌,
}
use cs_network_proj.Base.Outcome.{done, Ensures}
use cs_network_proj.Os.{Os, EpollFlag}
use cs_network_proj.Server.Epoll.{wait}
use cs_network_proj.Server.Instance.{Epoll}
use cs_network_proj.Server.Workers.{
  Registered, Registers, Reactor, member, AreDistinct, spent, Worker,
}
use cs_network_proj.Server.Workers.Registrations.{Keeps, Refused}
use cs_network_proj.Server.Workers.Invariant.{
  IsEnabled, Inv, Goes, HasBefore, AreDistinct-before, IsHeld-before, IsKept-before, apart,
}

-- What `epoll_wait` delivers, and what it leaves registered.
abbrev pub Delivers : List ℕ → Registered → Registered → Type 0
Delivers events before after =
    AreDistinct events
    × ((x : ℕ) → member x events ≡ true → before x ≢ none)
    × ((x : ℕ) → after x ≡ (if member x events then spent (before x) else before x))

module _ {os : Os} (registers : Registers os) where
  open os use {World}
  open registers use {enabled, delivered}

  pub wait-Delivers :
      (epoll : Epoll) (w w' : World) (events : List ℕ)
      → wait os epoll w ≡ done events w'
      → Delivers events (enabled w) (enabled w')
  unfolding wait
  wait-Delivers epoll w w' events e =
      let (es, v) = os.epoll_wait w epoll.fd epoll.max_events in
      let here : Delivers es (enabled w) (enabled v) =
        delivered w v epoll.fd epoll.max_events es refl in
      subst (Ensures (λ (l : List ℕ) u. Delivers l (enabled w) (enabled u))) e here

module _ {os : Os} {registers : Registers os} {listening : ℕ} {m : Reactor} {workers : ℕ → Worker}
    (inv : Inv registers listening m workers) (t : ℕ) where
  open inv use {open_still, one_shots, watched, once, held, unique, tidy, knows, kept}
  open registers use {enabled}

  not_theirs :
      (events events' : List ℕ) (x : ℕ)
      → (member x events' ≡ true → member x events ≡ true)
      → member x events ≡ false
      → member x events' ≡ false
  not_theirs events events' x sub h = elim (Bool-cases (member x events')) [
    | inl mine ↦ cc (sub mine, h)
    | inr not_mine ↦ not_mine
  ]

  -- Nothing is registered, and an event that the thread lets go of is one of a connection that could
  -- not be, or of the server socket.
  pub Goes-same :
      (registered : Registered) (events events' : List ℕ)
      → HasBefore inv t events
      → Keeps m.enabled registered
      → AreDistinct events'
      → ((fd : ℕ) → fd ≢ listening → member fd events' ≡ true → member fd events ≡ true)
      → ((fd : ℕ)
          → fd ≢ listening
          → member fd events ≡ true
          → (member fd events' ≡ true) ⊎ Refused registers fd)
      → Goes inv t (record m { enabled = registered }) events'
  Goes-same registered events events' e same distinct sub lost = record {
    opens = open_still;
    one_shot_still = λ fd mask far h. one_shots fd mask far (sym (same fd) ∙ h);
    watches = λ fd mask h. watched fd mask (sym (same fd) ∙ h);
    distinct = distinct;
    own = λ fd far h.
        let (off, here) = IsHeld-before inv t events fd e far (sub fd far h) in
        (same fd ∙ off, here);
    theirs = λ u fd other far h.
        let (off, here) = held u fd far h in
        (
          (same fd ∙ off, here),
          not_theirs events events' fd (sub fd far) (apart inv t events u fd e other far h),
          refl,
        );
    tidies = tidy;
    keeps = λ fd far here. elim (IsKept-before inv t fd events e far here) [
      | inl (mask, on) ↦ inl (mask, same fd ∙ on)
      | inr (inl refused) ↦ inr (inl refused)
      | inr (inr (inl mine)) ↦ elim (lost fd far mine) [
        | inl still ↦ inr (inr (inl still))
        | inr refused ↦ inr (inl refused)
      ]
      | inr (inr (inr theirs)) ↦ inr (inr (inr theirs))
    ];
  }

  -- A thread that has the same events as before.
  pub Goes-still : (events : List ℕ) → HasBefore inv t events → Goes inv t m events
  Goes-still events e =
      Goes-same m.enabled events events e (λ x. refl) (AreDistinct-before inv t events e)
        (λ fd far h. h) (λ fd far h. inl h)

  module _ (events : List ℕ) (after : Registered) (law : Delivers events m.enabled after) where
    not_mine : (x : ℕ) → member x events ≡ false → after x ≡ m.enabled x
    not_mine x h =
        let (_, _, change) = law in
        change x ∙ ap (λ b. if b then spent (m.enabled x) else m.enabled x) h

    -- What was delivered is disabled, for a connection is registered for one event.
    spent_now : (x : ℕ) → x ≢ listening → member x events ≡ true → after x ≡ none
    spent_now x far h =
        let (_, ready, change) = law in
        let now = change x ∙ ap (λ b. if b then spent (m.enabled x) else m.enabled x) h in
        elim (Option-cases (m.enabled x)) [
          | inl off ↦ absurd (ready x h off)
          | inr (mask, on) ↦
              let one = one_shots x mask far on in
              now ∙ ap spent on ∙ ap (λ (b : Bool). if b then none else some mask) one
        ]

    on_before : (x : ℕ) (mask : List EpollFlag) → after x ≡ some mask → IsEnabled x m.enabled
    on_before x mask h = elim (Bool-cases (member x events)) [
      | inr other ↦ (mask, sym (not_mine x other) ∙ h)
      | inl here ↦ elim (Option-cases (m.enabled x)) [
        | inl off ↦ let (_, ready, _) = law in absurd (ready x here off)
        | inr on ↦ on
      ]
    ]

    is_ready : (x : ℕ) → member x events ≡ true → IsEnabled x m.enabled
    is_ready x h = elim (Option-cases (m.enabled x)) [
      | inl off ↦ let (_, ready, _) = law in absurd (ready x h off)
      | inr on ↦ on
    ]

    pub Goes-wake : HasBefore inv t [] → Goes inv t (record m { enabled = after }) events
    Goes-wake e = record {
      opens = open_still;
      one_shot_still = λ x mask far h. elim (Bool-cases (member x events)) [
        | inl here ↦ cc (spent_now x far here, h)
        | inr other ↦ one_shots x mask far (sym (not_mine x other) ∙ h)
      ];
      watches = λ x mask h. let (mask', on) = on_before x mask h in watched x mask' on;
      distinct = law.0;
      own = λ x far h. let (mask, on) = is_ready x h in (spent_now x far h, watched x mask on);
      theirs = λ u x other far h.
          let (off, here) = held u x far h in
          let new : member x events ≡ false = elim (Bool-cases (member x events)) [
            | inl mine ↦ let (mask, on) = is_ready x mine in cc (on, off)
            | inr not_mine ↦ not_mine
          ] in
          ((not_mine x new ∙ off, here), new, refl);
      tidies = tidy;
      keeps = λ x far here. elim (IsKept-before inv t x [] e far here) [
        | inl (mask, on) ↦ elim (Bool-cases (member x events)) [
          | inl own_event ↦ inr (inr (inl own_event))
          | inr other ↦ inl (mask, not_mine x other ∙ on)
        ]
        | inr (inl refused) ↦ inr (inl refused)
        | inr (inr (inl own_event)) ↦ cc
        | inr (inr (inr theirs)) ↦ inr (inr (inr theirs))
      ];
    }
