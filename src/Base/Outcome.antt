-- ===== src/Base/Outcome.antt =====
-- The result of running C++ code that changes a state: a return, undefined behaviour or a failed
-- assertion, the end of the process, or a loop whose rounds ran out before it ended.
use Prim.Native.Nat.{ℕ}
use mathlib.Core.Path.{◌≡◌, refl}
use mathlib.Core.Logic.{◌≢◌}
use mathlib.Core.Option.{Option, none, some}

pub data Outcome (W A : Type 0) : Type 0 where
  done : A → W → Outcome W A
  fault : Outcome W A
  exited : ℕ → Outcome W A
  stuck : Outcome W A

abbrev pub Cmd : Type 0 → Type 0 → Type 0
Cmd W A = W → Outcome W A

-- A fatal entry in the log aborts the process, before the call of `exit` behind it.
abbrev pub aborted : ℕ
aborted = 134

module _ {W : Type 0} where
  abbrev pub and_then : {A B : Type 0} → Outcome W A → (A → Cmd W B) → Outcome W B
  and_then (done a w) k = k a w
  and_then fault k = fault
  and_then (exited n) k = exited n
  and_then stuck k = stuck

  abbrev pub pure : {A : Type 0} → A → Cmd W A
  pure a w = done a w

  infixl 5 ◌>>=◌ ◌>>◌
  abbrev pub ◌>>=◌ : {A B : Type 0} → Cmd W A → (A → Cmd W B) → Cmd W B
  ◌>>=◌ m k w = and_then (m w) k

  abbrev pub ◌>>◌ : {B : Type 0} → Cmd W (Unit {0}) → Cmd W B → Cmd W B
  m >> k = m >>= λ _. k

  -- A value that C++ dereferences: an empty pointer, or an index out of range, is a fault.
  abbrev pub deref : {A : Type 0} → Option A → Cmd W A
  deref none w = fault
  deref (some a) w = done a w

  -- The result of a loop on fuel that changes no state; `none` means that its rounds ran out.
  abbrev pub finished : {A : Type 0} → Option A → Cmd W A
  finished none w = stuck
  finished (some a) w = done a w

  -- Total correctness: the run returns, and what it returns satisfies `P`.
  abbrev pub Ensures : {A : Type 0} → (A → W → Type 0) → Outcome W A → Type 0
  Ensures P (done a w) = P a w
  Ensures P fault = ⊥
  Ensures P (exited n) = ⊥
  Ensures P stuck = ⊥

  pub Ensures-bind :
      {A B : Type 0} (P : A → W → Type 0) (Q : B → W → Type 0) (r : Outcome W A) (k : A → Cmd W B)
      → Ensures P r
      → ((a : A) (w : W) → P a w → Ensures Q (k a w))
      → Ensures Q (and_then r k)
  Ensures-bind P Q (done a w) k p next = next a w p
  Ensures-bind P Q fault k p next = absurd p
  Ensures-bind P Q (exited n) k p next = absurd p
  Ensures-bind P Q stuck k p next = absurd p

  -- The run that a total-correctness statement is about.
  pub Ensures-done :
      {A : Type 0} (P : A → W → Type 0) (r : Outcome W A)
      → Ensures P r
      → (a : A) × (w : W) × (r ≡ done a w) × P a w
  Ensures-done P (done a w) p = (a, w, refl, p)
  Ensures-done P fault p = absurd p
  Ensures-done P (exited n) p = absurd p
  Ensures-done P stuck p = absurd p

  pub Ensures-mono :
      {A : Type 0} (P Q : A → W → Type 0) (r : Outcome W A)
      → Ensures P r
      → ((a : A) (w : W) → P a w → Q a w)
      → Ensures Q r
  Ensures-mono P Q (done a w) p next = next a w p
  Ensures-mono P Q fault p next = p
  Ensures-mono P Q (exited n) p next = p
  Ensures-mono P Q stuck p next = p

  -- Partial correctness: what the run returns, if it returns.
  abbrev pub Holds : {A : Type 0} → (A → W → Type 0) → Outcome W A → Type 0
  Holds P (done a w) = P a w
  Holds P fault = Unit
  Holds P (exited n) = Unit
  Holds P stuck = Unit

  pub Holds-bind :
      {A B : Type 0} (Q : B → W → Type 0) (r : Outcome W A) (k : A → Cmd W B)
      → ((a : A) (w : W) → Holds Q (k a w))
      → Holds Q (and_then r k)
  Holds-bind Q (done a w) k next = next a w
  Holds-bind Q fault k next = tt
  Holds-bind Q (exited n) k next = tt
  Holds-bind Q stuck k next = tt

  pub Holds-mono :
      {A : Type 0} (P Q : A → W → Type 0) (r : Outcome W A)
      → Holds P r
      → ((a : A) (w : W) → P a w → Q a w)
      → Holds Q r
  Holds-mono P Q (done a w) p next = next a w p
  Holds-mono P Q fault p next = tt
  Holds-mono P Q (exited n) p next = tt
  Holds-mono P Q stuck p next = tt

  -- The next part may rely on what the first has returned.
  pub Holds-next :
      {A B : Type 0} (P : A → W → Type 0) (Q : B → W → Type 0) (r : Outcome W A) (k : A → Cmd W B)
      → Holds P r
      → ((a : A) (w : W) → P a w → Holds Q (k a w))
      → Holds Q (and_then r k)
  Holds-next P Q (done a w) k p next = next a w p
  Holds-next P Q fault k p next = tt
  Holds-next P Q (exited n) k p next = tt
  Holds-next P Q stuck k p next = tt

  -- What a run that returns keeps, besides what it ensures.
  pub Ensures-with :
      {A : Type 0} (P Q : A → W → Type 0) (r : Outcome W A)
      → Ensures P r
      → Holds Q r
      → Ensures (λ a w. P a w × Q a w) r
  Ensures-with P Q (done a w) p q = (p, q)
  Ensures-with P Q fault p q = p
  Ensures-with P Q (exited n) p q = p
  Ensures-with P Q stuck p q = p

  pub Ensures-next :
      {A B : Type 0} (P : A → W → Type 0) (Q : B → W → Type 0) (r : Outcome W A) (k : A → Cmd W B)
      → Ensures P r
      → ((a : A) (w : W) → P a w → Holds Q (k a w))
      → Holds Q (and_then r k)
  Ensures-next P Q (done a w) k p next = next a w p
  Ensures-next P Q fault k p next = absurd p
  Ensures-next P Q (exited n) k p next = absurd p
  Ensures-next P Q stuck k p next = absurd p

  pub Holds-deref :
      {A B : Type 0} (Q : B → W → Type 0) (o : Option A) (a : A) (k : A → Cmd W B) (w : W)
      → o ≡ some a
      → Holds Q (k a w)
      → Holds Q (and_then (deref o w) k)
  Holds-deref Q none a k w e h = cc
  Holds-deref Q (some b) a k w e h = let same : b ≡ a = cc in rw same h

  -- The run returns what satisfies `P`, or it aborts the process.
  abbrev pub Settles : {A : Type 0} → (A → W → Type 0) → Outcome W A → Type 0
  Settles P (done a w) = P a w
  Settles P fault = ⊥
  Settles P (exited n) = n ≡ aborted
  Settles P stuck = ⊥

  pub Settles-mono :
      {A : Type 0} (P Q : A → W → Type 0) (r : Outcome W A)
      → Settles P r
      → ((a : A) (w : W) → P a w → Q a w)
      → Settles Q r
  Settles-mono P Q (done a w) p next = next a w p
  Settles-mono P Q fault p next = p
  Settles-mono P Q (exited n) p next = p
  Settles-mono P Q stuck p next = p

  pub Settles-next :
      {A B : Type 0} (P : A → W → Type 0) (Q : B → W → Type 0) (r : Outcome W A) (k : A → Cmd W B)
      → Ensures P r
      → ((a : A) (w : W) → P a w → Settles Q (k a w))
      → Settles Q (and_then r k)
  Settles-next P Q (done a w) k p next = next a w p
  Settles-next P Q fault k p next = absurd p
  Settles-next P Q (exited n) k p next = absurd p
  Settles-next P Q stuck k p next = absurd p

  pub Settles-deref :
      {A B : Type 0} (Q : B → W → Type 0) (o : Option A) (a : A) (k : A → Cmd W B) (w : W)
      → o ≡ some a
      → Settles Q (k a w)
      → Settles Q (and_then (deref o w) k)
  Settles-deref Q none a k w e h = cc
  Settles-deref Q (some b) a k w e h = let same : b ≡ a = cc in rw same h

  -- A command whose rounds do not run out, in any state.
  abbrev pub Ends : {A : Type 0} → Cmd W A → Type 0
  Ends m = (w : W) → m w ≢ stuck

  pub and_then-ne-stuck :
      {A B : Type 0} (r : Outcome W A) (k : A → Cmd W B)
      → r ≢ stuck
      → ((a : A) → Ends (k a))
      → and_then r k ≢ stuck
  and_then-ne-stuck (done a w) k h next e = next a w e
  and_then-ne-stuck fault k h next e = cc
  and_then-ne-stuck (exited n) k h next e = cc
  and_then-ne-stuck stuck k h next e = h refl

  pub bind-Ends :
      {A B : Type 0} (m : Cmd W A) (k : A → Cmd W B)
      → Ends m
      → ((a : A) → Ends (k a))
      → Ends (m >>= k)
  bind-Ends m k h next w = and_then-ne-stuck (m w) k (h w) next

  pub pure-Ends : {A : Type 0} (a : A) → Ends (pure a)
  pure-Ends a w e = cc

  pub deref-Ends : {A : Type 0} (o : Option A) → Ends (deref o)
  deref-Ends none w e = cc
  deref-Ends (some a) w e = cc

  -- What a command returns may be relied on.
  pub ne-stuck-next :
      {A B : Type 0} (P : A → W → Type 0) (r : Outcome W A) (k : A → Cmd W B)
      → r ≢ stuck
      → Holds P r
      → ((a : A) (w : W) → P a w → k a w ≢ stuck)
      → and_then r k ≢ stuck
  ne-stuck-next P (done a w) k h p next e = next a w p e
  ne-stuck-next P fault k h p next e = cc
  ne-stuck-next P (exited n) k h p next e = cc
  ne-stuck-next P stuck k h p next e = h refl

  pub Holds-trivial : {A : Type 0} (r : Outcome W A) → Holds (λ _ _. Unit) r
  Holds-trivial (done a w) = tt
  Holds-trivial fault = tt
  Holds-trivial (exited n) = tt
  Holds-trivial stuck = tt
