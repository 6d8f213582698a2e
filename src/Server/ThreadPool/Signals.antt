-- ===== src/Server/ThreadPool/Signals.antt =====
-- Whom a pool signals, and what it reports of its threads.
use cs_network_proj.Base.{
  ℕ, ◌≡◌, refl, ◌∙◌, ap, sym, Bool, true, false, ◌||◌, ◌&&◌, List, [], ◌∷◌, ◌++◌, arith, ◌==◌,
  if◌then◌else◌, not, append-nil, Bool-cases, inl, inr,
}
use cs_network_proj.Base.Outcome.{done}
use cs_network_proj.Os.{Os}
use cs_network_proj.Server.ThreadPool.{Thread, join_all_from, join_all, kill_others, kill}

-- The handles of a pool but the caller's, and whether the caller is in it.
unfoldable pub others : ℕ → List Thread → List ℕ
others self [] = []
others self (t ∷ ts) = if self == t.handle then others self ts else t.handle ∷ others self ts

unfoldable pub has_handle : ℕ → List Thread → Bool
has_handle self [] = false
has_handle self (t ∷ ts) = (self == t.handle) || has_handle self ts

-- Every thread of a pool reported an error.
unfoldable pub all_nonzero : List ℕ → Bool
all_nonzero [] = true
all_nonzero (c ∷ cs) = not (c == 0) && all_nonzero cs

module _ (os : Os) where
  open os use {World}

  -- One signal to each handle, in order.
  unfoldable pub signal_all : List ℕ → World → World
  signal_all [] w = w
  signal_all (h ∷ hs) w = signal_all hs (os.pthread_kill w h)

  signal_all-append :
      (hs ks : List ℕ) (w : World) → signal_all (hs ++ ks) w ≡ signal_all ks (signal_all hs w)
  unfolding signal_all
  signal_all-append [] ks w = refl
  signal_all-append (h ∷ hs) ks w = signal_all-append hs ks (os.pthread_kill w h)

  kill_others_lem :
      (self : ℕ) (suicide : Bool) (ts : List Thread) (w : World)
      → kill_others os self suicide ts w
        ≡ (suicide || has_handle self ts, signal_all (others self ts) w)
  unfolding kill_others has_handle others signal_all
  kill_others_lem self suicide [] w = ground arith
  kill_others_lem self suicide (t ∷ ts) w = elim (Bool-cases (self == t.handle)) [
    | inl same ↦ rw same (kill_others_lem self true ts w ∙ ground arith)
    | inr apart ↦ rw apart (kill_others_lem self suicide ts (os.pthread_kill w t.handle))
  ]

  signal_all_last :
      (self : ℕ) (ts : List Thread) (w : World)
      → os.pthread_kill (signal_all (others self ts) w) self
        ≡ signal_all (others self ts ++ self ∷ []) w
  unfolding signal_all
  signal_all_last self ts w = sym (signal_all-append (others self ts) (self ∷ []) w)

  -- `kill` signals every other thread of the pool once, in its order, and then the thread that
  -- called it, if that is one of the pool.
  pub kill-signal_all :
      (ts : List Thread) (w : World)
      → let self = os.pthread_self w in
        kill os ts w
        ≡ done tt (signal_all (others self ts ++ (if has_handle self ts then self ∷ [] else [])) w)
  unfolding kill
  kill-signal_all ts w =
      let self = os.pthread_self w in
      rw (kill_others_lem self false ts w) (elim (Bool-cases (has_handle self ts)) [
        | inl inside ↦ rw inside (ap (done tt) (signal_all_last self ts w))
        | inr outside ↦
            rw outside (ap (λ l. done tt (signal_all l w)) (sym (append-nil (others self ts))))
      ])

  -- What `pthread_join` returns for each thread in turn, and the state behind them.
  unfoldable pub join_codes : List Thread → World → List ℕ × World
  join_codes [] w = ([], w)
  join_codes (t ∷ ts) w =
      let (code, w') = os.pthread_join w t.handle in
      let (codes, w'') = join_codes ts w' in (code ∷ codes, w'')

  join_all_from_lem :
      (so_far : Bool) (ts : List Thread) (w : World)
      → join_all_from os so_far ts w
        ≡ done (so_far && all_nonzero (join_codes ts w).0) (join_codes ts w).1
  unfolding join_all_from join_codes all_nonzero
  join_all_from_lem so_far [] w = ground arith
  join_all_from_lem so_far (t ∷ ts) w =
      let (code, w') = os.pthread_join w t.handle in
      elim (Bool-cases (code == 0)) [
        | inl fine ↦ rw fine (join_all_from_lem false ts w' ∙ ground arith)
        | inr failed ↦ rw failed (join_all_from_lem so_far ts w')
      ]

  -- `joinAll` joins every thread and returns true exactly when every `pthread_join` reported an
  -- error: one thread that was joined makes it false.
  pub join_all-all_nonzero :
      (ts : List Thread) (w : World)
      → join_all os ts w ≡ done (all_nonzero (join_codes ts w).0) (join_codes ts w).1
  unfolding join_all
  join_all-all_nonzero ts w = join_all_from_lem true ts w
