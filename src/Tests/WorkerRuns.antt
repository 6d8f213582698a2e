-- ===== src/Tests/WorkerRuns.antt =====
-- Two threads of a server: the first takes a connection off the server socket, and the second has an
-- event of that connection.
use cs_network_proj.Base.Int.{ℤ}
use cs_network_proj.Base.{
  ℕ, ◌<◌, ◌≡◌, ◌≢◌, ◌⊎◌, refl, ap, inl, true, Option, none, some, List, [], ◌∷◌, ◌==◌, arith,
  Option-cases, inr, update, if◌then◌else◌, subst,
}
use cs_network_proj.Os.{Os, EpollFlag, epollin, epollet}
use cs_network_proj.Network.Socket.{Socket}
use cs_network_proj.Server.Session.State.{new_session}
use cs_network_proj.Server.Epoll.{add_fd, wait, succeeded}
use cs_network_proj.Server.Listeners.{accept, one_shot}
use cs_network_proj.Server.Workers.{
  member, AreDistinct, spent, Registers, new_worker, wake, take_up, join, joined, Workers, turn,
  Arises, at_start, after, attached,
}
use cs_network_proj.Server.Workers.Registrations.{Refused}
use cs_network_proj.Server.Workers.Invariant.{Has, IsEnabled}
use cs_network_proj.Server.Workers.Sequential.{Serve, pool_of, Turn-Serve}
use cs_network_proj.Server.Workers.Exclusion.{never_shared, never_forgotten}
use cs_network_proj.Tests.Machine.{Machine, machine, start}
use cs_network_proj.Tests.EventRuns.{receiver}

-- The machine delivers an event of the server socket as long as a connection waits, and then one of
-- the connection.
abbrev candidate : List ℕ → ℕ
candidate [] = 3
candidate (c ∷ cs) = 9

abbrev enabled_one : ℕ → Option (List EpollFlag) → List ℕ
enabled_one fd none = []
enabled_one fd (some mask) = fd ∷ []

abbrev ready : Machine → List ℕ
ready w = enabled_one (candidate w.connections) (w.masks (candidate w.connections))

abbrev delivered_to : Machine → List ℕ × Machine
delivered_to w =
    (ready w, record w { masks = λ x. if member x (ready w) then spent (w.masks x) else w.masks x })

abbrev watching : Os
watching = record machine { epoll_wait = λ w epoll most. delivered_to w }

enabled_one-AreDistinct : (fd : ℕ) (o : Option (List EpollFlag)) → AreDistinct (enabled_one fd o)
enabled_one-AreDistinct fd none = tt
enabled_one-AreDistinct fd (some mask) = (refl, tt)

member-enabled_one :
    (masks : ℕ → Option (List EpollFlag)) (fd x : ℕ)
    → member x (enabled_one fd (masks fd)) ≡ true
    → masks x ≢ none
member-enabled_one masks fd x h off = elim (Option-cases (masks fd)) [
  | inl e ↦ cc (rw e at h)
  | inr (mask, e) ↦
      let here : member x (fd ∷ []) ≡ true = rw e at h in
      let same : x ≡ fd = ground (arith, here) in cc (same, off, e)
]

abbrev Calls : Machine → ℕ → List EpollFlag → ℤ × Machine → Type 0
Calls w fd mask r =
    (x : ℕ) → r.1.masks x ≡ (if succeeded r.0 then update w.masks fd (some mask) x else w.masks x)

abbrev Waits : Machine → List ℕ × Machine → Type 0
Waits w r =
    AreDistinct r.0
    × ((x : ℕ) → member x r.0 ≡ true → w.masks x ≢ none)
    × ((x : ℕ) → r.1.masks x ≡ (if member x r.0 then spent (w.masks x) else w.masks x))

abbrev registers : Registers watching
registers = record {
  enabled = λ w. w.masks;
  modified = λ w w' epoll code fd mask e. subst (Calls w fd mask) e (λ x. refl);
  added = λ w w' epoll code fd mask e. subst (Calls w fd mask) e (λ x. refl);
  delivered = λ w w' epoll most events e.
      let fd = candidate w.connections in
      let here : Waits w (delivered_to w) =
        (enabled_one-AreDistinct fd (w.masks fd), member-enabled_one w.masks fd, λ x. refl) in
      subst (Waits w) e here;
}

abbrev guest : Socket
guest = record { fd = 3 }

-- What is registered at first: the server socket.
abbrev at_first : ℕ → Option (List EpollFlag)
at_first fd = if fd == 9 then some (epollin ∷ epollet ∷ []) else none

abbrev quiet : Machine
quiet = record (start []) { masks = at_first }

abbrev knocking : Machine
knocking = record quiet { connections = 3 ∷ [] }

-- A state with the steps that lead to it.
record Run : Type 0 where
  last : Workers registers 9
  reach : Arises registers 9 2 receiver.server (λ fd. new_session (record { fd = fd })) last

unfoldable knocked : Run
unfolding new_worker wait
knocked = record {
  last = _;
  reach =
      after
        (after at_start (
          turn 0 (omega arith) refl
            (wake (9 ∷ []) knocking (delivered_to knocking).1 refl (λ x. refl) refl)))
        (turn 0 (omega arith) refl take_up);
}

abbrev waked : Machine
waked = record quiet { masks = (delivered_to knocking).1.masks }

abbrev welcomed : Machine
welcomed = (watching.epoll_add waked receiver.server.epoll.fd 3 (one_shot epollin)).1

unfoldable joined_in : Run
unfolding knocked new_worker wait accept add_fd
joined_in = record {
  last = _;
  reach =
      after
        (after knocked.reach (
          turn 0 (omega arith) refl
            (join guest true knocking quiet waked welcomed refl refl (λ x. refl) refl)))
        (turn 0 (omega arith) refl (joined quiet quiet refl));
}

unfoldable in_hand : Run
unfolding joined_in knocked new_worker wait accept add_fd
in_hand = record {
  last = _;
  reach = after joined_in.reach (
      turn 1 (omega arith) refl
        (wake (3 ∷ []) welcomed (delivered_to welcomed).1 refl (λ x. refl) refl));
}

never_shared_example : ◌≡◌ {A = ℕ} 1 1
unfolding in_hand joined_in knocked new_worker
never_shared_example = never_shared in_hand.reach 1 1 3 (omega arith) refl refl

accepts_all : (fd : ℕ) → Refused registers fd → ⊥
accepts_all fd (w, w', epoll, mask, code, inl call, bad) =
    cc (bad, ap (λ (r : ℤ × Machine). succeeded r.0) call)
accepts_all fd (w, w', epoll, mask, code, inr call, bad) =
    cc (bad, ap (λ (r : ℤ × Machine). succeeded r.0) call)

never_forgotten_example :
    IsEnabled 3 in_hand.last.shared.enabled ⊎ ((t : ℕ) × (t < 2) × Has 3 (in_hand.last.workers t))
unfolding in_hand joined_in knocked new_worker
never_forgotten_example = never_forgotten in_hand.reach 3 (omega arith) (accepts_all 3) refl

Turn-Serve_example :
    Serve watching
      (pool_of 9 knocked.last.shared)
      (pool_of 9 (attached guest welcomed.masks knocked.last.shared))
unfolding knocked new_worker accept add_fd
Turn-Serve_example = Turn-Serve knocked.reach (
    turn 0 (omega arith) refl
      (join guest true knocking quiet waked welcomed refl refl (λ x. refl) refl))
