-- ===== src/Util/Rio.antt =====
-- src/util/rio.cpp: write a whole block, however little each call of `write` takes.
pub mod Writes
pub mod Terminates
use cs_network_proj.Base.{ℕ, zero, suc, List, [], ◌∷◌, length, drop, ltb, if◌then◌else◌}
use cs_network_proj.Base.Outcome.{done, fault, stuck, Cmd}
use cs_network_proj.Os.{Os, WriteResult, wrote, write_failed}

module _ (os : Os) where
  open os use {World}

  -- One round over what is left of the block. No system returns more than it was given; the
  -- count that is left would wrap round there.
  abbrev pub after_write : (List ℕ → Cmd World ℕ) → List ℕ → WriteResult → Cmd World ℕ
  after_write next left (write_failed e) w = done 0 w
  after_write next left (wrote zero) w = done 0 w
  after_write next left (wrote (suc n)) w =
      let rest = next (drop (suc n) left) w in if ltb (length left) (suc n) then fault else rest

  unfoldable pub writen_loop : ℕ → ℕ → ℕ → List ℕ → Cmd World ℕ
  writen_loop zero fd n left w = stuck
  writen_loop (suc fuel) fd n [] w = done n w
  writen_loop (suc fuel) fd n (b ∷ bs) w =
      let (r, w') = os.write w fd (b ∷ bs) in after_write (writen_loop fuel fd n) (b ∷ bs) r w'

  -- Every round that goes on has written a byte.
  unfoldable pub rio_writen : ℕ → List ℕ → Cmd World ℕ
  unfolding writen_loop
  rio_writen fd block = writen_loop (suc (length block)) fd (length block) block
