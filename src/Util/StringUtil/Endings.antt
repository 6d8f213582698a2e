-- ===== src/Util/StringUtil/Endings.antt =====
-- Which texts `endsWith` accepts.
use cs_network_proj.Base.{
  ℕ, ◌+◌, ◌-◌, ◌^◌, ◌%◌, ◌≤◌, ◌<◌, ◌≡◌, ◌↔◌, refl, sym, ap, ◌∙◌, ◌⊎◌, inl, inr, true, Option, none,
  some, List, [], ◌∷◌, ◌++◌, arith, length, length-append, append-nil, is_prefix, is_prefix-append,
  append_of_is_prefix, Bool-cases, Option-cases, ◌==◌, ==_iff,
}
use cs_network_proj.Util.StringUtil.{npos, last_of, place_of, rfind, ends_with}

-- The needle stands in the text behind `i` characters.
abbrev Occurs : List ℕ → List ℕ → ℕ → Type 0
Occurs needle text i =
    (pre : List ℕ) × (rest : List ℕ) × (text ≡ pre ++ (needle ++ rest)) × (i ≡ length pre)

last_of-Occurs :
    (needle text : List ℕ) (i : ℕ) → last_of needle text ≡ some i → Occurs needle text i
unfolding last_of
last_of-Occurs needle [] i h = elim (Bool-cases (is_prefix needle [])) [
  | inl starts ↦ let (rest, e) = append_of_is_prefix needle [] starts in ([], rest, e, ground arith)
  | inr apart ↦ absurd (ground arith)
]
last_of-Occurs needle (c ∷ cs) i h = elim (Option-cases (last_of needle cs)) [
  | inl nothing ↦ elim (Bool-cases (is_prefix needle (c ∷ cs))) [
    | inl starts ↦
        let (rest, e) = append_of_is_prefix needle (c ∷ cs) starts in ([], rest, e, ground arith)
    | inr apart ↦ absurd (ground arith)
  ]
  | inr (j, found) ↦
      let (pre, rest, e, at) = last_of-Occurs needle cs j found in
      (c ∷ pre, rest, ap (λ l. c ∷ l) e, ground arith)
]

Occurs-length :
    (needle text : List ℕ) (i : ℕ) → Occurs needle text i → i + length needle ≤ length text
Occurs-length needle text i (pre, rest, e, at) =
    omega (arith, ap length e, length-append pre (needle ++ rest), length-append needle rest)

-- A needle that is longer than the text is not found.
last_of-longer : (needle text : List ℕ) → length text < length needle → last_of needle text ≡ none
last_of-longer needle text h = elim (Option-cases (last_of needle text)) [
  | inl nothing ↦ nothing
  | inr (i, found) ↦
      absurd (omega (arith, Occurs-length needle text i (last_of-Occurs needle text i found)))
]

last_of-suffix : (pre needle : List ℕ) → last_of needle (pre ++ needle) ≡ some (length pre)
unfolding last_of
last_of-suffix [] [] = refl
last_of-suffix [] (c ∷ cs) =
    let nothing = last_of-longer (c ∷ cs) cs (omega arith) in
    let whole : is_prefix (c ∷ cs) (c ∷ cs) ≡ true =
      ap (is_prefix (c ∷ cs)) (sym (append-nil (c ∷ cs))) ∙ is_prefix-append (c ∷ cs) [] in
    rw (nothing, whole) refl
last_of-suffix (c ∷ pre) needle = rw (last_of-suffix pre needle) refl

-- The difference of the lengths, as the code computes it.
difference-fits : (m n : ℕ) → n ≤ m → m < 2 ^ 63 → (m + 2 ^ 64 - n) % 2 ^ 64 ≡ m - n
difference-fits m n h k = omega arith

difference-longer : (m n : ℕ) → m < n → n < 2 ^ 63 → (m + 2 ^ 64 - n) % 2 ^ 64 ≡ 2 ^ 64 - (n - m)
difference-longer m n h k = omega arith

abbrev pub IsSuffix : List ℕ → List ℕ → Type 0
IsSuffix needle text = (pre : List ℕ) × (text ≡ pre ++ needle)

suffix_lem :
    (text needle : List ℕ)
    → length text < 2 ^ 63
    → IsSuffix needle text
    → ends_with text needle ≡ true
unfolding ends_with rfind
suffix_lem text needle short (pre, e) =
    let place : last_of needle text ≡ some (length pre) =
      ap (last_of needle) e ∙ last_of-suffix pre needle in
    let all = ap length e ∙ length-append pre needle in
    let width = difference-fits (length text) (length needle) (omega arith) short in
    rw (place, width) ((==_iff (length pre) (length text - length needle)).1 (omega arith))

one_longer_lem :
    (text needle : List ℕ)
    → length needle < 2 ^ 63
    → length needle ≡ length text + 1
    → ends_with text needle ≡ true
unfolding ends_with rfind
one_longer_lem text needle short e =
    let nothing = last_of-longer needle text (omega arith) in
    let width = difference-longer (length text) (length needle) (omega arith) short in
    rw (nothing, width) ((==_iff npos (2 ^ 64 - (length needle - length text))).1 (omega arith))

-- Where the needle was found, or not.
found_lem :
    (text needle : List ℕ) (place : Option ℕ)
    → length text < 2 ^ 63
    → length needle < 2 ^ 63
    → last_of needle text ≡ place
    → (place_of place == (length text + 2 ^ 64 - length needle) % 2 ^ 64) ≡ true
    → IsSuffix needle text ⊎ (length needle ≡ length text + 1)
found_lem text needle none short few e h =
    let same = (==_iff npos ((length text + 2 ^ 64 - length needle) % 2 ^ 64)).0 h in
    inr (omega arith)
found_lem text needle (some i) short few e h =
    let (pre, rest, parts, at) = last_of-Occurs needle text i e in
    let same = (==_iff i ((length text + 2 ^ 64 - length needle) % 2 ^ 64)).0 h in
    let all = ap length parts ∙ length-append pre (needle ++ rest) in
    let some_rest = length-append needle rest in
    let nothing : rest ≡ [] = empty rest (omega arith) in
    inl
      (pre, parts ∙ ap (λ l. pre ++ (needle ++ l)) nothing ∙ ap (λ l. pre ++ l) (append-nil needle))
  where
    empty : (l : List ℕ) → length l ≡ 0 → l ≡ []
    empty [] h = refl
    empty (x ∷ xs) h = absurd (omega arith)

-- `endsWith` accepts a needle that the text ends with, and also any needle that is one character
-- longer than the text, for the difference of the lengths is then that of an absent needle.
pub ends_with_iff :
    (text needle : List ℕ)
    → length text < 2 ^ 63
    → length needle < 2 ^ 63
    → (ends_with text needle ≡ true) ↔ (IsSuffix needle text ⊎ (length needle ≡ length text + 1))
unfolding ends_with rfind
ends_with_iff text needle short few = (
  λ h. found_lem text needle (last_of needle text) short few refl h,
  elim [
    | inl suffix ↦ suffix_lem text needle short suffix
    | inr longer ↦ one_longer_lem text needle few longer
  ],
)
