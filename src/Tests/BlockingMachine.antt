-- ===== src/Tests/BlockingMachine.antt =====
-- The machine whose reads wait: at the end of what has come, the connection is closed.
use cs_network_proj.Base.{
  ℕ, ◌≡◌, ◌≢◌, ◌≤◌, refl, sym, ap, List, ◌++◌, arith, length, take, drop, take-append-drop,
  length-take,
}
use cs_network_proj.Os.{
  Os, Errno, got, read_failed, ReadsAtMost, ReadsBlocking, ReadsStream, WritesStream, KeepsApart,
}
use cs_network_proj.Tests.Machine.{Machine, machine, write_accepts, write_refuses, write_apart_lem}

abbrev pub waiting : Os
waiting = record machine {
  read = λ w fd count. (got (take count w.incoming), record w { incoming = drop count w.incoming });
}

pub waiting_at_most :
    (w w' : Machine) (fd count : ℕ) (block : List ℕ)
    → waiting.read w fd count ≡ (got block, w')
    → length block ≤ count
waiting_at_most w w' fd count block e =
    let same : take count w.incoming ≡ block = cc in
    omega (arith, ap length same, length-take count w.incoming)

pub waiting_takes :
    (w w' : Machine) (fd count : ℕ) (block : List ℕ)
    → waiting.read w fd count ≡ (got block, w')
    → w.incoming ≡ block ++ w'.incoming
waiting_takes w w' fd count block e =
    let same : take count w.incoming ≡ block = cc in
    let left : drop count w.incoming ≡ w'.incoming = ap (λ r. r.1.incoming) e in
    rw (← same, ← left) (sym (take-append-drop count w.incoming))

pub waiting_unfailing :
    (w w' : Machine) (fd count : ℕ) (x : Errno) → waiting.read w fd count ≢ (read_failed x, w')
waiting_unfailing w w' fd count x e = cc

abbrev pub waiting-ReadsAtMost : ReadsAtMost waiting
waiting-ReadsAtMost = record { at_most = waiting_at_most }

abbrev pub waiting-ReadsBlocking : ReadsBlocking waiting
waiting-ReadsBlocking = record { unfailing = waiting_unfailing }

abbrev pub waiting-ReadsStream : ReadsStream waiting
waiting-ReadsStream = record {
  pending = λ w fd. w.incoming;
  takes = waiting_takes;
  keeps = λ w w' fd count x e. absurd (waiting_unfailing w w' fd count x e);
}

abbrev pub waiting-WritesStream : WritesStream waiting
waiting-WritesStream = record {
  sent = λ w fd. w.outgoing fd;
  accepts = write_accepts;
  refuses = write_refuses;
}

abbrev pub waiting-KeepsApart : KeepsApart waiting waiting-ReadsStream waiting-WritesStream
waiting-KeepsApart = record {
  read_keeps = λ w fd count out. refl;
  write_keeps = λ w out block fd. refl;
  write_apart = λ w out other block h. write_apart_lem w.outgoing out other _ h;
  seek_keeps = λ w file at fd. refl;
  seek_apart = λ w file at out. refl;
}
