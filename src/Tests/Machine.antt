-- ===== src/Tests/Machine.antt =====
-- A machine that reads what has come, takes three bytes at a time of what is written, and sends
-- four bytes of its file at a time.
use cs_network_proj.Base.Int.{ℤ, pos}
use cs_network_proj.Base.{
  ◌≢◌, ==_iff, Bool-cases, inl, inr, true, ◌==◌, if◌then◌else◌, ℕ, ◌+◌, ◌≤◌, ◌<◌, ◌≡◌, refl, sym,
  ap, ◌∙◌, List, [], ◌∷◌, ◌++◌, arith, length, take, drop, min, drop-drop, take-append-drop,
  length-take, codes, Option, none, some, update,
}
use cs_network_proj.Os.{
  ReadsFile, ReadsArrived, AcceptResult, accepted, accept_failed, EpollFlag, AcceptsQueue, Os,
  Errno, again, ReadResult, got, read_failed, wrote, write_failed, opened, ReadsAtMost, ReadsStream,
  WritesStream, SendsFile,
}

pub record Machine : Type 0 where
  pub incoming : List ℕ
  pub outgoing : ℕ → List ℕ
  pub content : List ℕ
  pub place : ℕ
  pub resolved : List ℕ
  pub signalled : List ℕ
  pub connections : List ℕ
  pub masks : ℕ → Option (List EpollFlag)

abbrev pub start : List ℕ → Machine
start text = record {
  incoming = text;
  outgoing = λ fd. [];
  content = 1 ∷ 2 ∷ 3 ∷ 4 ∷ 5 ∷ 6 ∷ 7 ∷ 8 ∷ 9 ∷ [];
  place = 0;
  resolved = codes "/srv/share/a";
  signalled = [];
  connections = [];
  masks = λ fd. none;
}

abbrev unsent : Machine → List ℕ
unsent w = drop w.place w.content

abbrev sendable : Machine → ℕ → ℕ
sendable w count = min (min count 4) (length (unsent w))

-- What the descriptors were sent, with a block more for one of them.
abbrev append_to : (ℕ → List ℕ) → ℕ → List ℕ → ℕ → List ℕ
append_to sent fd block other = if fd == other then sent other ++ block else sent other

pub append_to_lem :
    (sent : ℕ → List ℕ) (fd : ℕ) (block : List ℕ) → append_to sent fd block fd ≡ sent fd ++ block
append_to_lem sent fd block = let same : (fd == fd) ≡ true = (==_iff fd fd).1 refl in rw same refl

abbrev advance : Machine → ℕ → ℕ → Machine
advance w out n = record w {
  outgoing = append_to w.outgoing out (take n (unsent w));
  place = w.place + n;
}

abbrev deliver : Machine → ℕ → List ℕ → ReadResult × Machine
deliver w count [] = (read_failed again, w)
deliver w count (b ∷ bs) = (got (take count (b ∷ bs)), record w { incoming = drop count (b ∷ bs) })

abbrev take_connection : Machine → List ℕ → AcceptResult × Machine
take_connection w [] = (accept_failed again, w)
take_connection w (c ∷ cs) = (accepted c, record w { connections = cs })

abbrev pub machine : Os
machine = record {
  World = Machine;
  read = λ w fd count. deliver w count w.incoming;
  write = λ w fd block. (
    wrote (min (length block) 3),
    record w { outgoing = append_to w.outgoing fd (take (min (length block) 3) block) },
  );
  sendfile = λ w out file count. (wrote (sendable w count), advance w out (sendable w count));
  fopen = λ w path mode. (opened 5, w);
  popen = λ w path mode. (opened 6, w);
  fread = λ w file n. (take n (drop w.place w.content), w);
  fseek_end = λ w file. record w { place = length w.content };
  fseek_set = λ w file at. record w { place = at };
  ftell = λ w file. w.place;
  fallocate = λ w fd offset len. (0, w);
  remove = λ w path. (0, w);
  realpath = λ w path. w.resolved;
  getcwd = λ w. codes "/srv";
  pthread_create = λ w. (0, 7, w);
  pthread_join = λ w handle. (if handle == 7 then 3 else 0, w);
  pthread_self = λ w. 8;
  socket = λ w. (pos 3, w);
  bind = λ w fd port. (pos 0, w);
  listen = λ w fd queue. (pos 0, w);
  connect = λ w fd address port. (pos 0, w);
  inet_aton = λ address. true;
  accept = λ w fd. take_connection w w.connections;
  set_non_blocking = λ w fd. w;
  epoll_create = λ w. (pos 4, w);
  epoll_add = λ w epoll fd mask. (pos 0, record w { masks = update w.masks fd (some mask) });
  epoll_modify = λ w epoll fd mask. (pos 0, record w { masks = update w.masks fd (some mask) });
  epoll_wait = λ w epoll most. (3 ∷ [], w);
  pthread_kill = λ w handle. record w { signalled = w.signalled ++ handle ∷ [] };
}

-- What a delivery takes.
pub deliver_lem :
    (w w' : Machine) (count : ℕ) (text block : List ℕ)
    → deliver w count text ≡ (got block, w')
    → (block ≡ take count text) × (w'.incoming ≡ drop count text)
deliver_lem w w' count [] block e = cc
deliver_lem w w' count (b ∷ bs) block e = (cc, sym (ap (λ r. r.1.incoming) e))

pub read_at_most :
    (w w' : Machine) (fd count : ℕ) (block : List ℕ)
    → machine.read w fd count ≡ (got block, w')
    → length block ≤ count
read_at_most w w' fd count block e =
    omega
      (arith, ap length (deliver_lem w w' count w.incoming block e).0, length-take count w.incoming)

pub read_takes :
    (w w' : Machine) (fd count : ℕ) (block : List ℕ)
    → machine.read w fd count ≡ (got block, w')
    → w.incoming ≡ block ++ w'.incoming
read_takes w w' fd count block e =
    let (block_lem, rest_lem) = deliver_lem w w' count w.incoming block e in
    rw (block_lem, rest_lem) (sym (take-append-drop count w.incoming))

deliver_failed :
    (w w' : Machine) (count : ℕ) (text : List ℕ) (x : Errno)
    → deliver w count text ≡ (read_failed x, w')
    → w'.incoming ≡ w.incoming
deliver_failed w w' count [] x e = sym (ap (λ r. r.1.incoming) e)
deliver_failed w w' count (b ∷ bs) x e = cc

pub read_keeps :
    (w w' : Machine) (fd count : ℕ) (x : Errno)
    → machine.read w fd count ≡ (read_failed x, w')
    → w.incoming ≡ w'.incoming
read_keeps w w' fd count x e = sym (deliver_failed w w' count w.incoming x e)

pub write_accepts :
    (w w' : Machine) (fd n : ℕ) (block : List ℕ)
    → machine.write w fd block ≡ (wrote n, w')
    → (n ≤ length block) × (w'.outgoing fd ≡ w.outgoing fd ++ take n block)
write_accepts w w' fd n block e =
    let m : min (length block) 3 ≡ n = cc in
    (
      omega arith,
      sym (ap (λ r. r.1.outgoing fd) e)
          ∙ append_to_lem w.outgoing fd (take (min (length block) 3) block)
          ∙ ap (λ k. w.outgoing fd ++ take k block) m,
    )

pub write_refuses :
    (w w' : Machine) (fd : ℕ) (block : List ℕ) (x : Errno)
    → machine.write w fd block ≡ (write_failed x, w')
    → w'.outgoing fd ≡ w.outgoing fd
write_refuses w w' fd block x e = cc

pub sendfile_moves :
    (w w' : Machine) (out file count n : ℕ)
    → machine.sendfile w out file count ≡ (wrote n, w')
    → (n ≤ count)
      × (w'.outgoing out ≡ w.outgoing out ++ take n (unsent w))
      × (unsent w' ≡ drop n (unsent w))
sendfile_moves w w' out file count n e =
    let m : sendable w count ≡ n = cc in
    (
      omega arith,
      sym (ap (λ r. r.1.outgoing out) e)
          ∙ append_to_lem w.outgoing out (take (sendable w count) (unsent w))
          ∙ ap (λ k. w.outgoing out ++ take k (unsent w)) m,
      sym (ap (λ r. unsent r.1) e)
          ∙ ap (λ k. drop (w.place + k) w.content) m
          ∙ sym (drop-drop w.place n w.content),
    )

pub sendfile_stays :
    (w w' : Machine) (out file count : ℕ) (x : Errno)
    → machine.sendfile w out file count ≡ (write_failed x, w')
    → (w'.outgoing out ≡ w.outgoing out) × (unsent w' ≡ unsent w)
sendfile_stays w w' out file count x e = cc

abbrev pub machine-ReadsAtMost : ReadsAtMost machine
machine-ReadsAtMost = record { at_most = read_at_most }

abbrev pub machine-ReadsStream : ReadsStream machine
machine-ReadsStream = record {
  pending = λ w fd. w.incoming;
  takes = read_takes;
  keeps = read_keeps;
}

abbrev pub machine-WritesStream : WritesStream machine
machine-WritesStream = record {
  sent = λ w fd. w.outgoing fd;
  accepts = write_accepts;
  refuses = write_refuses;
}

abbrev pub machine-SendsFile : SendsFile machine
machine-SendsFile = record {
  sent = λ w fd. w.outgoing fd;
  unsent = λ w file. unsent w;
  moves = sendfile_moves;
  stays = sendfile_stays;
}

take_connection_lem :
    (w w' : Machine) (c : ℕ) (cs : List ℕ)
    → take_connection w cs ≡ (accepted c, w')
    → length cs ≡ 1 + length w'.connections
take_connection_lem w w' c [] e = cc
take_connection_lem w w' c (d ∷ ds) e = omega (arith, ap (λ r. length r.1.connections) e)

pub accept_takes_one :
    (w w' : Machine) (fd c : ℕ)
    → machine.accept w fd ≡ (accepted c, w')
    → length w.connections ≡ 1 + length w'.connections
accept_takes_one w w' fd c e = take_connection_lem w w' c w.connections e

take_none_lem :
    (w w' : Machine) (cs : List ℕ) (x : Errno)
    → take_connection w cs ≡ (accept_failed x, w')
    → (length cs ≡ 0) × (w ≡ w')
take_none_lem w w' [] x e = (refl, ap (λ r. r.1) e)
take_none_lem w w' (d ∷ ds) x e = cc

pub accept_none_left :
    (w w' : Machine) (fd : ℕ)
    → machine.accept w fd ≡ (accept_failed again, w')
    → length w.connections ≡ 0
accept_none_left w w' fd e = (take_none_lem w w' w.connections again e).0

pub accept_fails :
    (w w' : Machine) (fd : ℕ) (x : Errno)
    → machine.accept w fd ≡ (accept_failed x, w')
    → length w'.connections ≤ length w.connections
accept_fails w w' fd x e =
    omega
      (arith, ap (λ (m : Machine). length m.connections) (take_none_lem w w' w.connections x e).1)

pub added_lem :
    (w w' : Machine) (fd c : ℕ) (epoll code : ℤ) (mask : List EpollFlag)
    → machine.epoll_add w epoll c mask ≡ (code, w')
    → length w'.connections ≡ length w.connections
added_lem w w' fd c epoll code mask e = ap (λ r. length r.1.connections) (sym e)

abbrev pub machine-AcceptsQueue : AcceptsQueue machine
machine-AcceptsQueue = record {
  waiting = λ w fd. length w.connections;
  takes_one = accept_takes_one;
  none_left = accept_none_left;
  fails = accept_fails;
  unblocked = λ w fd c. refl;
  added = added_lem;
}

pub read_gives :
    (w : Machine) (fd count b : ℕ) (bs : List ℕ)
    → 0 < count
    → w.incoming ≡ b ∷ bs
    → (w' : Machine) × (machine.read w fd count ≡ (got (take count (b ∷ bs)), w'))
      × (w'.incoming ≡ drop count (b ∷ bs))
read_gives w fd count b bs h e =
    (record w { incoming = drop count (b ∷ bs) }, ap (deliver w count) e, refl)

abbrev pub machine-ReadsArrived : ReadsArrived machine
machine-ReadsArrived = record { pending = λ w fd. w.incoming; gives = read_gives }

pub write_apart_lem :
    (sent : ℕ → List ℕ) (out other : ℕ) (block : List ℕ)
    → out ≢ other
    → append_to sent out block other ≡ sent other
write_apart_lem sent out other block h = elim (Bool-cases (out == other)) [
  | inl same ↦ absurd (h ((==_iff out other).0 same))
  | inr differ ↦ rw differ refl
]

abbrev pub machine-ReadsFile : ReadsFile machine
machine-ReadsFile = record {
  content = λ w file. w.content;
  reads_at = λ w file at count. refl;
  reads_only = λ w file at count. refl;
  size_is = λ w file. refl;
  end_keeps = λ w file. refl;
  set_keeps = λ w file at. refl;
}
