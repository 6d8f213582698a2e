-- ===== src/Base/Family.antt =====
-- A family over the numbers, with one of its members in place of another.
use Prim.Native.Nat.{ℕ}
use mathlib.Core.Path.{◌≡◌, refl}
use mathlib.Core.Logic.{◌≢◌, ◌⊎◌, inl, inr}
use cs_network_proj.Base.Tests.{◌==◌, ==_iff, if◌then◌else◌, Bool-cases}

module _ {A : Type 0} where
  abbrev pub update : (ℕ → A) → ℕ → A → ℕ → A
  update f t a u = if u == t then a else f u

  -- The member that was put in, and the others.
  pub update-cases :
      (f : ℕ → A) (t : ℕ) (a : A) (u : ℕ)
      → ((u ≡ t) × (update f t a u ≡ a)) ⊎ ((u ≢ t) × (update f t a u ≡ f u))
  update-cases f t a u = elim (Bool-cases (u == t)) [
    | inl e ↦ inl ((==_iff u t).0 e, rw e refl)
    | inr e ↦ inr (λ same. cc (e, (==_iff u t).1 same), rw e refl)
  ]

  pub update_same : (f : ℕ → A) (t : ℕ) (a : A) → update f t a t ≡ a
  update_same f t a = elim (update-cases f t a t) [
    | inl (_, e) ↦ e
    | inr (other, e) ↦ absurd (other refl)
  ]

  pub update_other : (f : ℕ → A) (t : ℕ) (a : A) (u : ℕ) → u ≢ t → update f t a u ≡ f u
  update_other f t a u other = elim (update-cases f t a u) [
    | inl (same, e) ↦ absurd (other same)
    | inr (_, e) ↦ e
  ]
