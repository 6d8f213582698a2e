-- ===== src/Base/Text.antt =====
-- Texts as the lists of their bytes.
use Prim.Native.Nat.{ℕ}
use Prim.Native.Char.{code}
use Prim.Native.String.{String}
use mathlib.Core.Path.{◌≡◌, refl}
use mathlib.Core.Logic.{◌↔◌}
use mathlib.Core.Bool.{Bool, true, false, ◌&&◌}
use mathlib.Core.List.{List, [], ◌∷◌, ◌++◌}
use native.Mathlib.Omega.{arith}
use cs_network_proj.Base.Tests.{◌==◌, if◌then◌else◌}

-- The bytes of an ASCII literal.
abbrev pub codes : String → List ℕ
codes String.[] = []
codes (String.◌∷◌ c s) = code c ∷ codes s

unfoldable pub text_eq : List ℕ → List ℕ → Bool
text_eq [] [] = true
text_eq [] (y ∷ ys) = false
text_eq (x ∷ xs) [] = false
text_eq (x ∷ xs) (y ∷ ys) = (x == y) && text_eq xs ys

-- A C string: the bytes before the first NUL.
unfoldable pub c_str : List ℕ → List ℕ
c_str [] = []
c_str (c ∷ cs) = let rest = c_str cs in if c == 0 then [] else c ∷ rest

-- strncmp(text, front, strlen(front)) == 0
unfoldable pub is_prefix : List ℕ → List ℕ → Bool
is_prefix [] text = true
is_prefix (x ∷ xs) [] = false
is_prefix (x ∷ xs) (y ∷ ys) = (x == y) && is_prefix xs ys

text_eq→eq : (xs ys : List ℕ) → text_eq xs ys ≡ true → xs ≡ ys
unfolding text_eq
text_eq→eq [] [] h = refl
text_eq→eq [] (y ∷ ys) h = cc
text_eq→eq (x ∷ xs) [] h = cc
text_eq→eq (x ∷ xs) (y ∷ ys) h = ground (arith, text_eq→eq xs ys)

text_eq_refl : (xs : List ℕ) → text_eq xs xs ≡ true
unfolding text_eq
text_eq_refl [] = refl
text_eq_refl (x ∷ xs) = ground (arith, text_eq_refl xs)

pub text_eq_iff : (xs ys : List ℕ) → (text_eq xs ys ≡ true) ↔ (xs ≡ ys)
text_eq_iff xs ys = (text_eq→eq xs ys, λ e. rw (← e) (text_eq_refl xs))

-- A prefix in the sense of the test is one in the sense of lists.
pub is_prefix-append : (xs ys : List ℕ) → is_prefix xs (xs ++ ys) ≡ true
unfolding is_prefix
is_prefix-append [] ys = refl
is_prefix-append (x ∷ xs) ys = ground (arith, is_prefix-append xs ys)

pub append_of_is_prefix :
    (xs ys : List ℕ) → is_prefix xs ys ≡ true → (rest : List ℕ) × (ys ≡ xs ++ rest)
unfolding is_prefix
append_of_is_prefix [] ys h = (ys, refl)
append_of_is_prefix (x ∷ xs) [] h = cc
append_of_is_prefix (x ∷ xs) (y ∷ ys) h =
    let (rest, e) = append_of_is_prefix xs ys (ground arith) in (rest, ground arith)
