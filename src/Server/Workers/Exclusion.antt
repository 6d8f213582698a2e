-- ===== src/Server/Workers/Exclusion.antt =====
-- What the one-shot registrations and the ownership of the listeners give the threads: no connection
-- is handled twice at once, no deleted listener is called, and no connection is forgotten.
use cs_network_proj.Base.{
  ℕ, ◌<◌, ◌≡◌, ◌≢◌, refl, sym, ap, ◌⊎◌, inl, inr, true, subst, ==_iff, update-cases, arith,
}
use cs_network_proj.Os.{Os}
use cs_network_proj.Server.Instance.{Server}
use cs_network_proj.Server.Session.State.{Session}
use cs_network_proj.Server.Workers.{
  Registers, events_of, Worker, new_worker, Workers, turn, started, Arises, at_start, after,
}
use cs_network_proj.Server.Workers.Registrations.{Refused}
use cs_network_proj.Server.Workers.Invariant.{Has, IsEnabled, Knows, Inv, Inv-update}
use cs_network_proj.Server.Workers.Turns.{Act-Comes}

started-Inv :
    {os : Os} (registers : Registers os) (listening : ℕ) (server : Server) (session : ℕ → Session)
    → Inv registers listening
        (started registers listening server session).shared
        (started registers listening server session).workers
unfolding new_worker
started-Inv registers listening server session = record {
  open_still = (==_iff listening listening).1 refl;
  one_shots = λ fd mask far h. ground (arith, far, h);
  watched = λ fd mask h. ground (arith, h);
  once = λ t. tt;
  held = λ t fd far h. cc;
  unique = λ t u fd far h k. cc;
  tidy = λ fd far h. absurd (far ((==_iff fd listening).0 h));
  knows = λ t. tt;
  kept = λ fd far h. absurd (far ((==_iff fd listening).0 h));
}

module _ {os : Os} {registers : Registers os} {listening n : ℕ} {server : Server}
    {session : ℕ → Session} where
  pub Arises-Inv :
      {s : Workers registers listening}
      → Arises registers listening n server session s
      → Inv registers listening s.shared s.workers
  Arises-Inv at_start = started-Inv registers listening server session
  Arises-Inv (after {s} r (turn t {p} {q} {m} {buffer} {buffer'} lt here act)) =
      let inv = Arises-Inv r in
      let before : events_of (s.workers t).stage ≡ events_of p =
        ap (λ (w : Worker). events_of w.stage) here in
      let known : Knows listening s.shared p =
        subst (λ (w : Worker). Knows listening s.shared w.stage) here (inv.knows t) in
      let (goes, now) = Act-Comes inv t buffer buffer' p q m before known act in
      Inv-update inv t m (record { stage = q; local_read_buffer = buffer' }) goes now

  Arises-Has_lt :
      {s : Workers registers listening}
      → Arises registers listening n server session s
      → (t fd : ℕ) → Has fd (s.workers t)
      → t < n
  unfolding new_worker
  Arises-Has_lt at_start t fd h = cc
  Arises-Has_lt (after {s} r (turn u {p} {q} {m} {buffer} {buffer'} lt here act)) t fd h =
      elim (update-cases s.workers u (record { stage = q; local_read_buffer = buffer' }) t) [
        | inl (same, _) ↦ subst (λ (v : ℕ). v < n) (sym same) lt
        | inr (_, e) ↦ Arises-Has_lt r t fd (subst (Has fd) e h)
      ]

  -- In whatever order the steps of the threads come, two threads never have an event of the same
  -- connection: left in their buffers, or being handled up to the registration for the next event,
  -- or to the end of the listener. The system keeps the registrations as epoll(7) says.
  pub never_shared :
      {s : Workers registers listening}
      → Arises registers listening n server session s
      → (t u fd : ℕ) → fd ≢ listening
      → Has fd (s.workers t)
      → Has fd (s.workers u)
      → t ≡ u
  never_shared r t u fd far h k = (Arises-Inv r).unique t u fd far h k

  -- If the system refuses no call that registers a connection, then in whatever order the steps of
  -- the threads come, as long as its listener has not been deleted, the connection has an enabled
  -- registration, or one of the threads has an event of it. The system keeps the registrations as
  -- epoll(7) says.
  pub never_forgotten :
      {s : Workers registers listening}
      → Arises registers listening n server session s
      → (fd : ℕ) → fd ≢ listening
      → (Refused registers fd → ⊥)
      → s.shared.alive fd ≡ true
      → IsEnabled fd s.shared.enabled ⊎ ((t : ℕ) × (t < n) × Has fd (s.workers t))
  never_forgotten {s} r fd far accepts here = elim ((Arises-Inv r).kept fd far here) [
    | inl enabled ↦ inl enabled
    | inr (inl refused) ↦ absurd (accepts refused)
    | inr (inr (t, h)) ↦ inr (t, Arises-Has_lt r t fd h, h)
  ]
