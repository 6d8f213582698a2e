-- ===== src/Programs/Arguments.antt =====
-- The arguments of server.cpp and client.cpp: `getopt` of the C library, which moves the operands
-- behind the options, and `std::stoi`.
pub mod Decimals
use cs_network_proj.Base.{
  ℕ, zero, suc, ◌+◌, ◌-◌, ◌*◌, ◌%◌, ◌^◌, Bool, true, false, ◌&&◌, Option, none, some, List, [], ◌∷◌,
  ◌++◌, ltb, leb, ◌==◌, if◌then◌else◌,
}
use cs_network_proj.Base.Int.{ℤ, pos, negsuc}
use cs_network_proj.Util.Byte.Hex.{take_sign, skip_space}

-- What `getopt` returns: an option with its argument, one without, or a question mark.
pub data Opt : Type 0 where
  given : ℕ → List ℕ → Opt
  flag : ℕ → Opt
  unknown : Opt

-- What a character of the option string stands for.
pub data Kind : Type 0 where
  no_option plain with_argument : Kind

-- A word of the command line: an operand, the end of the options, options, or options of which the
-- last has its argument in the next word.
pub data Word : Type 0 where
  operand stop : Word
  options : List Opt → Word
  wants : List Opt → ℕ → Word

abbrev pub behind : Opt → Word → Word
behind o operand = operand
behind o stop = stop
behind o (options os) = options (o ∷ os)
behind o (wants os c) = wants (o ∷ os) c

abbrev pub argument : ℕ → List ℕ → Word
argument c [] = wants [] c
argument c (d ∷ ds) = options (given c (d ∷ ds) ∷ [])

unfoldable pub read_options : (ℕ → Kind) → List ℕ → Word
read_options kinds [] = options []
read_options kinds (c ∷ cs) = elim (kinds c) [
  | no_option ↦ behind unknown (read_options kinds cs)
  | plain ↦ behind (flag c) (read_options kinds cs)
  | with_argument ↦ argument c cs
]

abbrev pub is_nil : List ℕ → Bool
is_nil [] = true
is_nil (c ∷ cs) = false

abbrev pub read_word : (ℕ → Kind) → List ℕ → Word
read_word kinds [] = operand
read_word kinds (c ∷ []) = operand
read_word kinds (c ∷ d ∷ cs) =
    if c == b'-'
    then (if (d == b'-') && is_nil cs then stop else read_options kinds (d ∷ cs))
    else operand

-- The options in their order, and the operands.
pub record Line : Type 0 where
  pub opts : List Opt
  pub operands : List (List ℕ)

abbrev pub with_opts : List Opt → Line → Line
with_opts os line = record { opts = os ++ line.opts; operands = line.operands }

abbrev pub with_operand : List ℕ → Line → Line
with_operand word line = record { opts = line.opts; operands = word ∷ line.operands }

-- The calls of `getopt` up to the one that returns -1.
unfoldable pub getopt : (ℕ → Kind) → List (List ℕ) → Line
unfolding read_options
getopt kinds [] = record { opts = []; operands = [] }
getopt kinds (word ∷ []) = elim (read_word kinds word) [
  | operand ↦ record { opts = []; operands = word ∷ [] }
  | stop ↦ record { opts = []; operands = [] }
  | options os ↦ record { opts = os; operands = [] }
  | wants os c ↦ record { opts = os ++ unknown ∷ []; operands = [] }
]
getopt kinds (word ∷ next ∷ words) = elim (read_word kinds word) [
  | operand ↦ with_operand word (getopt kinds (next ∷ words))
  | stop ↦ record { opts = []; operands = next ∷ words }
  | options os ↦ with_opts os (getopt kinds (next ∷ words))
  | wants os c ↦ with_opts (os ++ given c next ∷ []) (getopt kinds words)
]

abbrev pub is_digit : ℕ → Bool
is_digit c = leb 48 c && leb c 57

-- The value of the digits at the front of a text, if there are any.
unfoldable pub read_decimal : ℕ → Bool → List ℕ → Option ℕ
read_decimal acc found [] = if found then some acc else none
read_decimal acc found (c ∷ cs) =
    let rest = read_decimal (10 * acc + (c - 48)) true cs in
    if is_digit c then rest else (if found then some acc else none)

abbrev pub negative : ℕ → ℤ
negative zero = pos 0
negative (suc n) = negsuc n

abbrev pub checked_int : Bool → Option ℕ → Option ℤ
checked_int minus none = none
checked_int false (some v) = if ltb v (2 ^ 31) then some (pos v) else none
checked_int true (some v) = if leb v (2 ^ 31) then some (negative v) else none

-- std::stoi; none is the exception, which nothing catches.
unfoldable pub stoi : List ℕ → Option ℤ
unfolding skip_space read_decimal
stoi text =
    let (minus, digits) = take_sign (skip_space text) in
    checked_int minus (read_decimal 0 false digits)

-- A port, as the 16 bits in which it is passed on.
abbrev pub to_port : ℤ → ℕ
to_port (pos n) = n % 2 ^ 16
to_port (negsuc n) = 2 ^ 16 - 1 - n % 2 ^ 16

-- The result of the options: what they set, or the code with which the process ends.
pub data Parsed (A : Type 0) : Type 0 where
  parsed : A → Parsed A
  refused : ℕ → Parsed A

-- An option whose argument is a number.
abbrev pub with_number : {A : Type 0} → List ℕ → (ℤ → A) → Parsed A
with_number text set = elim (stoi text) [ none ↦ refused 134 | some v ↦ parsed (set v) ]
