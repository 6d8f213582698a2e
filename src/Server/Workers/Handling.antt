-- ===== src/Server/Workers/Handling.antt =====
-- A connection whose event a thread handles: its session is stored, its listener is registered again,
-- or deleted.
use cs_network_proj.Base.{
  ℕ, ◌≡◌, ◌≢◌, refl, sym, ap, ◌∙◌, ◌⊎◌, inl, inr, Bool, true, false, some, List, ◌∷◌, subst, update,
  update-cases, update_other,
}
use cs_network_proj.Os.{Os}
use cs_network_proj.Server.Session.State.{State, detach_buffer}
use cs_network_proj.Server.Workers.{
  Registered, Registers, Reactor, member, is_one_shot, handled, Worker,
}
use cs_network_proj.Server.Workers.Registrations.{Sets, Refused}
use cs_network_proj.Server.Workers.Invariant.{
  member_other, member_same, Has, IsTidy, IsHeld, IsEnabled, Inv, Goes, HasBefore, IsKept,
  AreDistinct-before, IsHeld-before, IsKept-before, apart,
}

module _ {os : Os} {registers : Registers os} {listening : ℕ} {m : Reactor} {workers : ℕ → Worker}
    (inv : Inv registers listening m workers) (t : ℕ) where
  open inv use {open_still, one_shots, watched, once, held, unique, tidy, knows, kept}

  module _ (fd : ℕ) (events : List ℕ) (far : fd ≢ listening)
      (e : HasBefore inv t (fd ∷ events)) where
    pub mine : IsHeld fd m
    mine = IsHeld-before inv t (fd ∷ events) fd e far (member_same fd events)

    pub gone : member fd events ≡ false
    gone = (AreDistinct-before inv t (fd ∷ events) e).0

    -- The events behind it, and those of the other threads, are of other connections.
    differs_own : (x : ℕ) → member x events ≡ true → x ≢ fd
    differs_own x h same = cc (ap (λ (y : ℕ). member y events) same, gone)

    differs_theirs : (u x : ℕ) → u ≢ t → x ≢ listening → Has x (workers u) → x ≢ fd
    differs_theirs u x other far' h same = cc (
      apart inv t (fd ∷ events) u x e other far' h,
      ap (λ (y : ℕ). member y (fd ∷ events)) same,
      member_same fd events,
    )

    own_before : (x : ℕ) → x ≢ listening → member x events ≡ true → IsHeld x m
    own_before x far' h =
        IsHeld-before inv t (fd ∷ events) x e far' (member_other x fd events (differs_own x h) ∙ h)

    theirs_before : (u x : ℕ) → u ≢ t → x ≢ listening → Has x (workers u) → member x events ≡ false
    theirs_before u x other far' h =
        sym (member_other x fd events (differs_theirs u x other far' h))
        ∙ apart inv t (fd ∷ events) u x e other far' h

    IsKept-others :
        (x : ℕ) → x ≢ fd → x ≢ listening → m.alive x ≡ true → IsKept inv t m.enabled events x
    IsKept-others x other far' here =
        subst
          (λ (b : Bool).
            IsEnabled x m.enabled
            ⊎ Refused registers x
            ⊎ (b ≡ true)
            ⊎ ((u : ℕ) × (u ≢ t) × Has x (workers u)))
          (member_other x fd events other) (IsKept-before inv t x (fd ∷ events) e far' here)

    -- The session is stored.
    pub Goes-finish :
        (s : State) → IsTidy (detach_buffer s.session) → Goes inv t (handled fd s m) (fd ∷ events)
    Goes-finish s tidy_again = record {
      opens = open_still;
      one_shot_still = one_shots;
      watches = watched;
      distinct = AreDistinct-before inv t (fd ∷ events) e;
      own = λ x far' h. IsHeld-before inv t (fd ∷ events) x e far' h;
      theirs = λ u x other far' h. (
        held u x far' h,
        apart inv t (fd ∷ events) u x e other far' h,
        update_other m.session fd (detach_buffer s.session) x (differs_theirs u x other far' h),
      );
      tidies = λ x far' here. elim (update-cases m.session fd (detach_buffer s.session) x) [
        | inl (_, now) ↦ subst IsTidy (sym now) tidy_again
        | inr (_, old) ↦ subst IsTidy (sym old) (tidy x far' here)
      ];
      keeps = λ x far' here. IsKept-before inv t x (fd ∷ events) e far' here;
    }

    -- The connection is registered for one more event.
    pub Goes-set :
        (registered : Registered)
        → Sets fd m.enabled registered
        → Goes inv t (record m { enabled = registered }) events
    Goes-set registered (mask, one, set) =
        let elsewhere : (x : ℕ) → x ≢ fd → registered x ≡ m.enabled x =
          λ x other. set x ∙ update_other m.enabled fd (some mask) x other in
        record {
          opens = open_still;
          one_shot_still = λ x mask' far' h. elim (update-cases m.enabled fd (some mask) x) [
            | inl (_, now) ↦
                let same : mask ≡ mask' = cc (h, set x, now) in ap is_one_shot (sym same) ∙ one
            | inr (other, _) ↦ one_shots x mask' far' (sym (elsewhere x other) ∙ h)
          ];
          watches = λ x mask' h. elim (update-cases m.enabled fd (some mask) x) [
            | inl (same, _) ↦ ap m.alive same ∙ mine.1
            | inr (other, _) ↦ watched x mask' (sym (elsewhere x other) ∙ h)
          ];
          distinct = (AreDistinct-before inv t (fd ∷ events) e).1;
          own = λ x far' h.
              let (off, here) = own_before x far' h in (elsewhere x (differs_own x h) ∙ off, here);
          theirs = λ u x other far' h.
              let (off, here) = held u x far' h in
              (
                (elsewhere x (differs_theirs u x other far' h) ∙ off, here),
                theirs_before u x other far' h,
                refl,
              );
          tidies = tidy;
          keeps = λ x far' here. elim (update-cases m.enabled fd (some mask) x) [
            | inl (same, now) ↦ inl (mask, set x ∙ now)
            | inr (other, _) ↦ elim (IsKept-others x other far' here) [
              | inl (mask', on) ↦ inl (mask', elsewhere x other ∙ on)
              | inr others ↦ inr others
            ]
          ];
        }

    -- Where a listener is still there, it is another one.
    not_dropped : (x : ℕ) → update m.alive fd false x ≡ true → (x ≢ fd) × (m.alive x ≡ true)
    not_dropped x h = elim (update-cases m.alive fd false x) [
      | inl (_, now) ↦ cc
      | inr (other, old) ↦ (other, sym old ∙ h)
    ]

    still_there : (x : ℕ) → x ≢ fd → IsHeld x m → update m.alive fd false x ≡ true
    still_there x other (_, here) = update_other m.alive fd false x other ∙ here

    -- The listener is deleted.
    pub Goes-remove : Goes inv t (record m { alive = update m.alive fd false }) events
    Goes-remove = record {
      opens = update_other m.alive fd false listening (λ same. far (sym same)) ∙ open_still;
      one_shot_still = one_shots;
      watches = λ x mask h. elim (update-cases m.alive fd false x) [
        | inl (same, _) ↦ cc (h, ap m.enabled same, mine.0)
        | inr (_, old) ↦ old ∙ watched x mask h
      ];
      distinct = (AreDistinct-before inv t (fd ∷ events) e).1;
      own = λ x far' h.
          let before = own_before x far' h in (before.0, still_there x (differs_own x h) before);
      theirs = λ u x other far' h.
          let before = held u x far' h in
          (
            (before.0, still_there x (differs_theirs u x other far' h) before),
            theirs_before u x other far' h,
            refl,
          );
      tidies = λ x far' h. let (other, here) = not_dropped x h in tidy x far' here;
      keeps = λ x far' h. let (other, here) = not_dropped x h in IsKept-others x other far' here;
    }
