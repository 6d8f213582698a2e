-- ===== src/Server/Workers/Invariant.antt =====
-- What holds of the threads, the registrations and the listeners, in every order of the steps.
use cs_network_proj.Base.{
  ℕ, ◌≡◌, ◌≢◌, refl, sym, ap, ◌∙◌, ◌⊎◌, inl, inr, true, false, Bool-cases, some, none, List, ◌∷◌,
  subst, ◌==◌, ==_iff, update, update-cases, update_same, update_other, arith,
}
use cs_network_proj.Os.{Os, EpollFlag}
use cs_network_proj.Server.Session.State.{writing, ended, FileProcess, Session}
use cs_network_proj.Server.Workers.{
  Registered, Registers, Reactor, Stage, waiting, batch, handling, serving, served, leaving,
  returned, events_of, member, AreDistinct, is_one_shot, Worker,
}
use cs_network_proj.Server.Workers.Registrations.{Refused}

pub member_other : (fd x : ℕ) (xs : List ℕ) → fd ≢ x → member fd (x ∷ xs) ≡ member fd xs
member_other fd x xs other = ground (arith)

pub member_same : (fd : ℕ) (xs : List ℕ) → member fd (fd ∷ xs) ≡ true
member_same fd xs = rw ((==_iff fd fd).1 refl) refl

abbrev pub Has : ℕ → Worker → Type 0
Has fd worker = member fd (events_of worker.stage) ≡ true

-- A session that no thread has in hand has no thread's buffer, and has its file if it writes.
abbrev pub IsTidy : Session → Type 0
IsTidy s =
    (s.read_buffer ≡ none) × (s.status ≡ writing → (p : FileProcess) × (s.file_process ≡ some p))

-- A connection whose event a thread has: its registration is disabled, and its listener is there.
abbrev pub IsHeld : ℕ → Reactor → Type 0
IsHeld fd m = (m.enabled fd ≡ none) × (m.alive fd ≡ true)

abbrev pub IsEnabled : ℕ → Registered → Type 0
IsEnabled fd registered = (mask : List EpollFlag) × (registered fd ≡ some mask)

-- What a thread knows of the connection that it handles: the session is still as it read it; where
-- the listener is not kept, the session has ended.
abbrev pub Knows : ℕ → Reactor → Stage → Type 0
Knows listening m waiting = Unit {0}
Knows listening m (batch events) = Unit {0}
Knows listening m (handling fd events) = Unit {0}
Knows listening m (serving fd s events) = (fd ≢ listening) × (s ≡ m.session fd)
Knows listening m (served fd events) = fd ≢ listening
Knows listening m (leaving true fd events) = Unit {0}
Knows listening m (leaving false fd events) = (fd ≢ listening) × ((m.session fd).status ≡ ended)
Knows listening m returned = Unit {0}

-- It knows that as long as the sessions that it has stay as they are.
Knows-same :
    (listening : ℕ) (m m' : Reactor) (p : Stage)
    → ((x : ℕ) → x ≢ listening → member x (events_of p) ≡ true → m'.session x ≡ m.session x)
    → Knows listening m p
    → Knows listening m' p
Knows-same listening m m' waiting same h = tt
Knows-same listening m m' (batch events) same h = tt
Knows-same listening m m' (handling fd events) same h = tt
Knows-same listening m m' (serving fd s events) same (far, e) =
    (far, e ∙ sym (same fd far (member_same fd events)))
Knows-same listening m m' (served fd events) same h = h
Knows-same listening m m' (leaving true fd events) same h = tt
Knows-same listening m m' (leaving false fd events) same (far, e) =
    (far, ap (λ (s : Session). s.status) (same fd far (member_same fd events)) ∙ e)
Knows-same listening m m' returned same h = tt

module _ {os : Os} (registers : Registers os) where
  pub record Inv (listening : ℕ) (m : Reactor) (workers : ℕ → Worker) : Type 0 where
    pub open_still : m.alive listening ≡ true
    pub one_shots :
        (fd : ℕ) (mask : List EpollFlag)
        → fd ≢ listening
        → m.enabled fd ≡ some mask
        → is_one_shot mask ≡ true
    pub watched : (fd : ℕ) (mask : List EpollFlag) → m.enabled fd ≡ some mask → m.alive fd ≡ true
    pub once : (t : ℕ) → AreDistinct (events_of (workers t).stage)
    pub held : (t fd : ℕ) → fd ≢ listening → Has fd (workers t) → IsHeld fd m
    pub unique : (t u fd : ℕ) → fd ≢ listening → Has fd (workers t) → Has fd (workers u) → t ≡ u
    pub tidy : (fd : ℕ) → fd ≢ listening → m.alive fd ≡ true → IsTidy (m.session fd)
    pub knows : (t : ℕ) → Knows listening m (workers t).stage
    pub kept :
        (fd : ℕ)
        → fd ≢ listening
        → m.alive fd ≡ true
        → IsEnabled fd m.enabled ⊎ Refused registers fd ⊎ ((t : ℕ) × Has fd (workers t))

module _ {os : Os} {registers : Registers os} {listening : ℕ} {m : Reactor} {workers : ℕ → Worker}
    (inv : Inv registers listening m workers) (t : ℕ) where
  open inv use {open_still, one_shots, watched, once, held, unique, tidy, knows, kept}

  abbrev pub HasOther : ℕ → Type 0
  HasOther fd = (u : ℕ) × (u ≢ t) × Has fd (workers u)

  abbrev pub HasBefore : List ℕ → Type 0
  HasBefore events = events_of (workers t).stage ≡ events

  abbrev pub IsKept : Registered → List ℕ → ℕ → Type 0
  IsKept registered events fd =
      IsEnabled fd registered ⊎ Refused registers fd ⊎ (member fd events ≡ true) ⊎ HasOther fd

  pub AreDistinct-before : (events : List ℕ) → HasBefore events → AreDistinct events
  AreDistinct-before events e = subst AreDistinct e (once t)

  pub IsHeld-before :
      (events : List ℕ) (fd : ℕ)
      → HasBefore events
      → fd ≢ listening
      → member fd events ≡ true
      → IsHeld fd m
  IsHeld-before events fd e far h =
      held t fd far (subst (λ (es : List ℕ). member fd es ≡ true) (sym e) h)

  -- What is to be shown of the thread that moved, with the events that it has then, and of the
  -- others.
  pub record Goes (m' : Reactor) (events : List ℕ) : Type 0 where
    pub opens : m'.alive listening ≡ true
    pub one_shot_still :
        (fd : ℕ) (mask : List EpollFlag)
        → fd ≢ listening
        → m'.enabled fd ≡ some mask
        → is_one_shot mask ≡ true
    pub watches : (fd : ℕ) (mask : List EpollFlag) → m'.enabled fd ≡ some mask → m'.alive fd ≡ true
    pub distinct : AreDistinct events
    pub own : (fd : ℕ) → fd ≢ listening → member fd events ≡ true → IsHeld fd m'
    pub theirs :
        (u fd : ℕ)
        → u ≢ t
        → fd ≢ listening
        → Has fd (workers u)
        → IsHeld fd m' × (member fd events ≡ false) × (m'.session fd ≡ m.session fd)
    pub tidies : (fd : ℕ) → fd ≢ listening → m'.alive fd ≡ true → IsTidy (m'.session fd)
    pub keeps : (fd : ℕ) → fd ≢ listening → m'.alive fd ≡ true → IsKept m'.enabled events fd

  module _ (m' : Reactor) (worker : Worker) (g : Goes m' (events_of worker.stage)) where
    IsKept-after :
        (fd : ℕ)
        → IsKept m'.enabled (events_of worker.stage) fd
        → IsEnabled fd m'.enabled
          ⊎ Refused registers fd
          ⊎ ((u : ℕ) × Has fd (update workers t worker u))
    IsKept-after fd (inl enabled) = inl enabled
    IsKept-after fd (inr (inl refused)) = inr (inl refused)
    IsKept-after fd (inr (inr (inl mine))) =
        inr (inr (t, subst (Has fd) (sym (update_same workers t worker)) mine))
    IsKept-after fd (inr (inr (inr (u, other, h)))) =
        inr (inr (u, subst (Has fd) (sym (update_other workers t worker u other)) h))

    pub Inv-update :
        Knows listening m' worker.stage → Inv registers listening m' (update workers t worker)
    Inv-update now = record {
      open_still = g.opens;
      one_shots = g.one_shot_still;
      watched = g.watches;
      once = λ u. elim (update-cases workers t worker u) [
        | inl (_, e) ↦ subst (λ (w : Worker). AreDistinct (events_of w.stage)) (sym e) g.distinct
        | inr (_, e) ↦ subst (λ (w : Worker). AreDistinct (events_of w.stage)) (sym e) (once u)
      ];
      held = λ u fd far h. elim (update-cases workers t worker u) [
        | inl (_, e) ↦ g.own fd far (subst (Has fd) e h)
        | inr (other, e) ↦ (g.theirs u fd other far (subst (Has fd) e h)).0
      ];
      unique = λ u v fd far h k. elim (update-cases workers t worker u) [
        | inl (same, e) ↦ elim (update-cases workers t worker v) [
          | inl (same', f) ↦ same ∙ sym same'
          | inr (other, f) ↦
              let (_, apart, _) = g.theirs v fd other far (subst (Has fd) f k) in
              cc (apart, subst (Has fd) e h)
        ]
        | inr (other, e) ↦ elim (update-cases workers t worker v) [
          | inl (_, f) ↦
              let (_, apart, _) = g.theirs u fd other far (subst (Has fd) e h) in
              cc (apart, subst (Has fd) f k)
          | inr (_, f) ↦ unique u v fd far (subst (Has fd) e h) (subst (Has fd) f k)
        ]
      ];
      tidy = g.tidies;
      knows = λ u. elim (update-cases workers t worker u) [
        | inl (_, e) ↦ subst (λ (w : Worker). Knows listening m' w.stage) (sym e) now
        | inr (other, e) ↦
            subst (λ (w : Worker). Knows listening m' w.stage) (sym e)
              (Knows-same listening m m' (workers u).stage
                (λ x far h. let (_, _, same) = g.theirs u x other far h in same) (knows u))
      ];
      kept = λ fd far here. IsKept-after fd (g.keeps fd far here);
    }

  -- Who has an event: the thread that moves, or another.
  pub IsKept-before :
      (fd : ℕ) (events : List ℕ)
      → HasBefore events
      → fd ≢ listening
      → m.alive fd ≡ true
      → IsKept m.enabled events fd
  IsKept-before fd events e far here = elim (kept fd far here) [
    | inl enabled ↦ inl enabled
    | inr (inl refused) ↦ inr (inl refused)
    | inr (inr (u, h)) ↦ elim (Bool-cases (u == t)) [
      | inl same ↦ inr (
          inr (
            inl (
              subst (λ (es : List ℕ). member fd es ≡ true) e
                (subst (λ (v : ℕ). Has fd (workers v)) ((==_iff u t).0 same) h))))
      | inr differ ↦ inr (inr (inr (u, (λ same. cc (differ, (==_iff u t).1 same)), h)))
    ]
  ]

  -- What a thread has, no other has.
  pub apart :
      (events : List ℕ) (u fd : ℕ)
      → HasBefore events
      → u ≢ t
      → fd ≢ listening
      → Has fd (workers u)
      → member fd events ≡ false
  apart events u fd e other far h = elim (Bool-cases (member fd events)) [
    | inl mine ↦
        absurd
          (other (unique u t fd far h (subst (λ (es : List ℕ). member fd es ≡ true) (sym e) mine)))
    | inr not_mine ↦ not_mine
  ]
