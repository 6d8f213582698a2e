-- ===== src/Util/Rio/Terminates.antt =====
-- `rio_writen` ends.
use cs_network_proj.Base.{ℕ, zero, suc, ◌<◌, ◌≢◌, List, [], ◌∷◌, length, drop, length-drop, arith}
use cs_network_proj.Base.Outcome.{stuck, Cmd, Ends}
use cs_network_proj.Os.{Os, WriteResult, wrote, write_failed}
use cs_network_proj.Util.Rio.{after_write, writen_loop, rio_writen}

module _ (os : Os) where
  open os use {World}

  after_write-ne-stuck :
      (next : List ℕ → Cmd World ℕ) (left : List ℕ) (r : WriteResult) (w : World)
      → ((n : ℕ) → next (drop (suc n) left) w ≢ stuck)
      → after_write os next left r w ≢ stuck
  after_write-ne-stuck next left (write_failed e) w goes_on q = cc
  after_write-ne-stuck next left (wrote zero) w goes_on q = cc
  after_write-ne-stuck next left (wrote (suc n)) w goes_on q = ground (arith, goes_on n)

  writen_loop-ne-stuck :
      (fuel fd n : ℕ) (left : List ℕ) (w : World)
      → length left < fuel
      → writen_loop os fuel fd n left w ≢ stuck
  unfolding writen_loop
  writen_loop-ne-stuck zero fd n left w h = absurd (omega arith)
  writen_loop-ne-stuck (suc fuel) fd n [] w h = cc
  writen_loop-ne-stuck (suc fuel) fd n (b ∷ bs) w h =
      after_write-ne-stuck (writen_loop os fuel fd n) (b ∷ bs) _ _
        λ k. writen_loop-ne-stuck fuel fd n (drop k bs) _ (omega (arith, length-drop k bs))

  pub rio_writen-Ends : (fd : ℕ) (block : List ℕ) → Ends (rio_writen os fd block)
  unfolding rio_writen
  rio_writen-Ends fd block w =
      writen_loop-ne-stuck (suc (length block)) fd (length block) block w (omega arith)
