-- ===== src/Server/Workers/Steps.antt =====
-- Each step of a thread keeps the invariant of the threads, the registrations and the listeners.
use cs_network_proj.Base.{
  ℕ, ◌≡◌, ◌≢◌, refl, sym, ap, ◌∙◌, ◌⊎◌, inl, inr, true, false, Bool-cases, some, List, ◌∷◌, subst,
  ◌==◌, ==_iff, update-cases, update_other, arith,
}
use cs_network_proj.Base.Outcome.{Holds, done}
use cs_network_proj.Os.{Os, EpollFlag}
use cs_network_proj.Util.ByteBuffer.{ByteBuffer}
use cs_network_proj.Network.Socket.{Socket}
use cs_network_proj.Server.Session.State.{Session, State, new_session}
use cs_network_proj.Server.Session.Handle.{handle}
use cs_network_proj.Server.Session.Handle.Invariant.{HasFile, handle-HasFile}
use cs_network_proj.Server.Instance.{Server}
use cs_network_proj.Server.Workers.{
  Registered, Registers, Reactor, is_one_shot, attached, entered, Worker,
}
use cs_network_proj.Server.Workers.Registrations.{Sets, Keeps, Refused}
use cs_network_proj.Server.Workers.Invariant.{
  IsTidy, IsHeld, Inv, Goes, HasBefore, IsKept, AreDistinct-before, IsHeld-before, IsKept-before,
  apart,
}
use cs_network_proj.Server.Workers.Handling.{Goes-set}
use cs_network_proj.Server.Workers.Waking.{Goes-same}

-- What `handle` returns has its file if it writes.
pub handle-IsTidy :
    (os : Os) (server : Server) (buffer : ByteBuffer) (s : Session) (s' : State) (w w' : os.World)
    → IsTidy s
    → handle os (entered server buffer s) w ≡ done s' w'
    → HasFile s'
handle-IsTidy os server buffer s s' w w' (_, has_file) e =
    subst (Holds (λ r _. HasFile r)) e (handle-HasFile os (entered server buffer s) w has_file)

module _ {os : Os} {registers : Registers os} {listening : ℕ} {m : Reactor} {workers : ℕ → Worker}
    (inv : Inv registers listening m workers) (t : ℕ) where
  open inv use {open_still, one_shots, watched, once, held, unique, tidy, knows, kept}
  open registers use {enabled}

  module _ (socket : Socket) (new : m.alive socket.fd ≡ false) where
    open socket use {fd}

    -- A descriptor that is in use is not the new one.
    in_use : (x : ℕ) → m.alive x ≡ true → x ≢ fd
    in_use x here e = cc (ap m.alive e)

    -- Nothing is registered for the new one but by this call.
    on_before :
        (registered : Registered)
        → Sets fd m.enabled registered ⊎ (Refused registers fd × Keeps m.enabled registered)
        → (x : ℕ) (mask : List EpollFlag) → registered x ≡ some mask
        → ((x ≡ fd) × (is_one_shot mask ≡ true)) ⊎ (m.enabled x ≡ some mask)
    on_before registered (inr (_, same)) x mask h = inr (sym (same x) ∙ h)
    on_before registered (inl (mask', one, set)) x mask h =
        elim (update-cases m.enabled fd (some mask') x) [
          | inl (same, now) ↦
              let equal : mask' ≡ mask = cc (h, set x, now) in
              inl (same, ap is_one_shot (sym equal) ∙ one)
          | inr (_, old) ↦ inr (sym old ∙ sym (set x) ∙ h)
        ]

    elsewhere :
        (registered : Registered)
        → Sets fd m.enabled registered ⊎ (Refused registers fd × Keeps m.enabled registered)
        → (x : ℕ) → x ≢ fd
        → registered x ≡ m.enabled x
    elsewhere registered (inr (_, same)) x other = same x
    elsewhere registered (inl (mask, _, set)) x other =
        set x ∙ update_other m.enabled fd (some mask) x other

    new-IsKept :
        (registered : Registered) (events : List ℕ)
        → Sets fd m.enabled registered ⊎ (Refused registers fd × Keeps m.enabled registered)
        → (x : ℕ) → x ≡ fd
        → IsKept inv t registered events x
    new-IsKept registered events (inl (mask, _, set)) x same = inl (
      mask,
      elim (update-cases m.enabled fd (some mask) x) [
        | inl (_, now) ↦ set x ∙ now
        | inr (other, _) ↦ absurd (other same)
      ],
    )
    new-IsKept registered events (inr (refused, _)) x same =
        inr (inl (subst (Refused registers) (sym same) refused))

    IsHeld-attached :
        (registered : Registered)
        → Sets fd m.enabled registered ⊎ (Refused registers fd × Keeps m.enabled registered)
        → (x : ℕ) → IsHeld x m
        → IsHeld x (attached socket registered m)
    IsHeld-attached registered tried x (off, here) =
        let old = in_use x here in
        (elsewhere registered tried x old ∙ off, update_other m.alive fd true x old ∙ here)

    pub Goes-join :
        (registered : Registered) (events : List ℕ)
        → HasBefore inv t events
        → Sets fd m.enabled registered ⊎ (Refused registers fd × Keeps m.enabled registered)
        → Goes inv t (attached socket registered m) events
    Goes-join registered events e tried = record {
      opens = update_other m.alive fd true listening (in_use listening open_still) ∙ open_still;
      one_shot_still = λ x mask far h. elim (on_before registered tried x mask h) [
        | inl (_, one) ↦ one
        | inr on ↦ one_shots x mask far on
      ];
      watches = λ x mask h. elim (update-cases m.alive fd true x) [
        | inl (_, now) ↦ now
        | inr (other, old) ↦ elim (on_before registered tried x mask h) [
          | inl (same, _) ↦ absurd (other same)
          | inr on ↦ old ∙ watched x mask on
        ]
      ];
      distinct = AreDistinct-before inv t events e;
      own = λ x far h. IsHeld-attached registered tried x (IsHeld-before inv t events x e far h);
      theirs = λ u x other far h.
          let before = held u x far h in
          (
            IsHeld-attached registered tried x before,
            apart inv t events u x e other far h,
            update_other m.session fd (new_session socket) x (in_use x before.1),
          );
      tidies = λ x far h. elim (update-cases m.session fd (new_session socket) x) [
        | inl (_, now) ↦ subst IsTidy (sym now) (refl, (λ e. cc))
        | inr (other, old) ↦
            subst IsTidy (sym old) (tidy x far (sym (update_other m.alive fd true x other) ∙ h))
      ];
      keeps = λ x far h. elim (update-cases m.alive fd true x) [
        | inl (same, _) ↦ new-IsKept registered events tried x same
        | inr (other, old) ↦ elim (IsKept-before inv t x events e far (sym old ∙ h)) [
          | inl (mask, on) ↦ inl (mask, elsewhere registered tried x other ∙ on)
          | inr others ↦ inr others
        ]
      ];
    }

  pub Goes-register :
      (fd : ℕ) (events : List ℕ) (registered : Registered)
      → fd ≢ listening
      → HasBefore inv t (fd ∷ events)
      → Sets fd m.enabled registered ⊎ (Refused registers fd × Keeps m.enabled registered)
      → Goes inv t (record m { enabled = registered }) events
  Goes-register fd events registered far e (inl set) = Goes-set inv t fd events far e registered set
  Goes-register fd events registered far e (inr (refused, same)) =
      Goes-same inv t registered (fd ∷ events) events e same
        (AreDistinct-before inv t (fd ∷ events) e).1 (λ x _ h. ground (arith, h))
        λ x _ h. elim (Bool-cases (x == fd)) [
          | inl here ↦ inr (subst (Refused registers) (sym ((==_iff x fd).0 here)) refused)
          | inr other ↦ inl (rw other at h)
        ]
