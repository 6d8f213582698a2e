-- ===== src/Client/DownloadManager/Tiling.antt =====
-- The parts of a new download cover the file.
use cs_network_proj.Base.{
  ℕ, zero, suc, ◌+◌, ◌-◌, ◌*◌, ◌/◌, ◌^◌, ◌≤◌, ◌<◌, ◌≡◌, refl, sym, ap, ◌∙◌, subst, inl, inr, true,
  Option, some, List, [], ◌∷◌, ◌++◌, arith, append-nil, append_assoc, ltb, leb, u32, u64,
  Bool-cases,
}
use cs_network_proj.Client.DownloadManager.{
  PartStatus, part_size, whole_part, last_part, parts_loop, new_parts,
}

-- The parts are numbered from `n`, each starts where the one before it ends, the first at `cur` and
-- the last ending at `end`; none is empty or larger than a part can be, and all of each is left.
abbrev pub Tiles : ℕ → ℕ → List PartStatus → ℕ → Type 0
Tiles n cur [] end = cur ≡ end
Tiles n cur (p ∷ ps) end =
    ((p.id ≡ n) × (p.offset ≡ cur) × (p.rest ≡ p.size) × (0 < p.size) × (p.size ≤ part_size))
    × Tiles (n + 1) (cur + p.size) ps end

-- The parts that the loop adds.
Added : List PartStatus → ℕ → ℕ → ℕ → Option (List PartStatus) → Type 0
Added parts n cur rest r =
    (more : List PartStatus) × (r ≡ some (parts ++ more)) × Tiles n cur more (cur + rest)

last_part-Added :
    (parts : List PartStatus) (n cur rest : ℕ)
    → rest < part_size
    → Added parts n cur rest (some (last_part parts n cur rest))
unfolding Added
last_part-Added parts n cur zero h = ([], ap some (sym (append-nil parts)), omega arith)
last_part-Added parts n cur (suc rest) h =
    let some_left : ltb 0 (suc rest) ≡ true = ground arith in
    rw some_left
      (whole_part n cur (suc rest) ∷ [], refl, ((refl, refl, refl, omega arith, omega arith), refl))

parts_loop-Added :
    (rounds : ℕ) (parts : List PartStatus) (n cur rest : ℕ)
    → rest < rounds * part_size
    → cur ≡ n * part_size
    → cur + rest < 2 ^ 58
    → Added parts n cur rest (parts_loop rounds parts n cur rest)
unfolding parts_loop Added
parts_loop-Added zero parts n cur rest enough at bound = absurd (omega arith)
parts_loop-Added (suc rounds) parts n cur rest enough at bound =
    elim (Bool-cases (leb part_size rest)) [
      | inl full ↦
          let more_than : part_size ≤ rest = ground arith in
          let number : u32 (n + 1) ≡ n + 1 = omega arith in
          let place : u64 (cur + part_size) ≡ cur + part_size = omega arith in
          let p = whole_part n cur part_size in
          let (more, e, tiles) =
            parts_loop-Added rounds (parts ++ p ∷ []) (n + 1) (cur + part_size) (rest - part_size)
              (omega arith) (omega arith) (omega arith) in
          let end : cur + part_size + (rest - part_size) ≡ cur + rest = omega arith in
          rw (full, number, place)
            (
              p ∷ more,
              e ∙ ap some (append_assoc parts (p ∷ []) more),
              (
                (refl, refl, refl, omega arith, omega arith),
                subst (Tiles (n + 1) (cur + part_size) more) end tiles,
              ),
            )
      | inr part ↦ rw part (last_part-Added parts n cur rest (ground arith))
    ]

-- The parts of a new download cover the file without gap or overlap, numbered from 0 in order. The
-- bound on the size keeps the 32-bit numbers of the parts from wrapping round.
pub new_parts-Tiles :
    (size : ℕ)
    → size < 2 ^ 58
    → (parts : List PartStatus) × (new_parts size ≡ some parts) × Tiles 0 0 parts size
unfolding new_parts Added
new_parts-Tiles size h =
    let (parts, e, tiles) =
      parts_loop-Added (suc (size / part_size)) [] 0 0 size (omega arith) refl (omega arith) in
    let end : 0 + size ≡ size = omega arith in (parts, e, subst (Tiles 0 0 parts) end tiles)
