-- ===== src/Util/StringUtil.antt =====
-- src/util/StringUtil.h and StringUtil.cpp. A std::string is the list of its bytes; its size is
-- below 2 ^ 64, and npos is 2 ^ 64 - 1.
pub mod Split
pub mod Endings
use cs_network_proj.Base.{
  is_prefix, ◌%◌, ◌^◌, ℕ, zero, suc, ◌+◌, ◌-◌, ◌^◌, ◌%◌, Bool, true, false, ◌&&◌, ◌||◌, Option,
  none, some, List, [], ◌∷◌, ◌++◌, length, take, drop, ltb, ◌==◌, if◌then◌else◌,
}

-- Characters, one of which may be asked for.
unfoldable pub contains : List ℕ → ℕ → Bool
contains [] c = false
contains (d ∷ ds) c = (c == d) || contains ds c

-- std::string::find_first_of from the front of what is left.
unfoldable pub first_of : List ℕ → List ℕ → Option ℕ
first_of delims [] = none
first_of delims (c ∷ cs) =
    let rest = first_of delims cs in
    if contains delims c then some 0 else elim rest [ none ↦ none | some i ↦ some (suc i) ]

unfoldable pub find_first_of : List ℕ → List ℕ → ℕ → Option ℕ
unfolding first_of contains
find_first_of text delims at = elim (first_of delims (drop at text)) [
  | none ↦ none
  | some i ↦ some (at + i)
]

abbrev pub substr : List ℕ → ℕ → ℕ → List ℕ
substr text at n = take n (drop at text)

-- What one round does with the place of the next delimiter. With none, the rest of the text is
-- the last word, and the loop breaks.
abbrev pub after_find :
    (ℕ → List (List ℕ) → Option (List (List ℕ)))
    → List ℕ
    → ℕ
    → List (List ℕ)
    → Option ℕ
    → Option (List (List ℕ))
after_find next text first output none = some (output ++ drop first text ∷ [])
after_find next text first output (some second) =
    next (second + 1)
      (if first == second then output else output ++ substr text first (second - first) ∷ [])

-- `none` means that the rounds ran out.
unfoldable pub split_loop : ℕ → List ℕ → List ℕ → ℕ → List (List ℕ) → Option (List (List ℕ))
unfolding find_first_of
split_loop zero text delims first output = none
split_loop (suc fuel) text delims first output =
    let round =
      after_find (split_loop fuel text delims) text first output
        (find_first_of text delims first) in
    if ltb first (length text) then round else some output

-- Every round passes at least one character.
unfoldable pub split : List ℕ → List ℕ → Option (List (List ℕ))
unfolding split_loop
split text delims = split_loop (suc (length text)) text delims 0 []

-- std::string::npos
abbrev pub npos : ℕ
npos = 2 ^ 64 - 1

-- The place of the last occurrence of the needle.
unfoldable pub last_of : List ℕ → List ℕ → Option ℕ
unfolding is_prefix
last_of needle [] = if is_prefix needle [] then some 0 else none
last_of needle (c ∷ cs) = elim (last_of needle cs) [
  | none ↦ if is_prefix needle (c ∷ cs) then some 0 else none
  | some i ↦ some (suc i)
]

abbrev pub place_of : Option ℕ → ℕ
place_of none = npos
place_of (some i) = i

unfoldable pub rfind : List ℕ → List ℕ → ℕ
unfolding last_of
rfind text needle = place_of (last_of needle text)

-- The difference of the lengths wraps round.
unfoldable pub ends_with : List ℕ → List ℕ → Bool
unfolding rfind
ends_with text needle = rfind text needle == (length text + 2 ^ 64 - length needle) % 2 ^ 64
