-- ===== src/Os.antt =====
-- What the program calls of the operating system and the C library. The state of the system is an
-- abstract `World`. A file descriptor, a `FILE *` and a thread handle are numbers, a path and a
-- block of memory are lists of bytes.
use cs_network_proj.Base.Int.{ℤ}
use cs_network_proj.Base.{◌≢◌, ◌<◌, ◌∷◌, Bool, ◌+◌, ℕ, ◌≤◌, ◌≡◌, List, ◌++◌, length, take, drop}

pub data Errno : Type 0 where
  again no_entry other : Errno

-- The bytes that `read` delivered, none of them at the end of the input; or -1 and `errno`.
pub data ReadResult : Type 0 where
  got : List ℕ → ReadResult
  read_failed : Errno → ReadResult

-- The count that `write` or `sendfile` returned, or -1 and `errno`.
pub data WriteResult : Type 0 where
  wrote : ℕ → WriteResult
  write_failed : Errno → WriteResult

pub data OpenResult : Type 0 where
  opened : ℕ → OpenResult
  open_failed : Errno → OpenResult

-- The descriptor of a connection that `accept` returned, or -1 and `errno`.
pub data AcceptResult : Type 0 where
  accepted : ℕ → AcceptResult
  accept_failed : Errno → AcceptResult

-- The flags of an epoll event; a mask is the list of those that are set.
pub data EpollFlag : Type 0 where
  epollin epollout epollet epolloneshot : EpollFlag

pub record Os : Type 1 where
  pub World : Type 0
  -- read(fd, memory, count)
  pub read : World → ℕ → ℕ → ReadResult × World
  -- write(fd, block, its length)
  pub write : World → ℕ → List ℕ → WriteResult × World
  -- sendfile(out, in, nullptr, count)
  pub sendfile : World → ℕ → ℕ → ℕ → WriteResult × World
  -- fopen(path, mode)
  pub fopen : World → List ℕ → List ℕ → OpenResult × World
  -- popen(command, mode)
  pub popen : World → List ℕ → List ℕ → OpenResult × World
  -- fread(memory, 1, size, file)
  pub fread : World → ℕ → ℕ → List ℕ × World
  -- fseek(file, 0, SEEK_END), fseek(file, position, SEEK_SET), ftell(file)
  pub fseek_end : World → ℕ → World
  pub fseek_set : World → ℕ → ℕ → World
  pub ftell : World → ℕ → ℕ
  -- fallocate(fd, 0, offset, length), remove(path): 0 or an error
  pub fallocate : World → ℕ → ℕ → ℕ → ℕ × World
  pub remove : World → List ℕ → ℕ × World
  -- The text in the result buffer of realpath(path, buffer), and of getcwd(buffer, size).
  pub realpath : World → List ℕ → List ℕ
  pub getcwd : World → List ℕ
  -- pthread_create(&handle, …): the code that it returns, and the handle that it stores
  pub pthread_create : World → ℕ × ℕ × World
  -- pthread_join(thread, nullptr): the code that it returns
  pub pthread_join : World → ℕ → ℕ × World
  -- pthread_self(), pthread_kill(thread, SIGKILL)
  pub pthread_self : World → ℕ
  pub pthread_kill : World → ℕ → World
  -- socket(AF_INET, SOCK_STREAM, IPPROTO_TCP): a descriptor, or a negative number
  pub socket : World → ℤ × World
  -- bind to a port of every address, listen(fd, queue), connect to an address: 0 or a negative
  pub bind : World → ℕ → ℕ → ℤ × World
  pub listen : World → ℕ → ℕ → ℤ × World
  pub connect : World → ℕ → List ℕ → ℕ → ℤ × World
  -- inet_aton: whether the text is an address
  pub inet_aton : List ℕ → Bool
  pub accept : World → ℕ → AcceptResult × World
  -- fcntl(fd, F_SETFL, … | O_NONBLOCK)
  pub set_non_blocking : World → ℕ → World
  -- epoll_create1(0), and epoll_ctl(epoll, EPOLL_CTL_ADD or EPOLL_CTL_MOD, fd, mask)
  pub epoll_create : World → ℤ × World
  pub epoll_add : World → ℤ → ℕ → List EpollFlag → ℤ × World
  pub epoll_modify : World → ℤ → ℕ → List EpollFlag → ℤ × World
  -- epoll_wait(epoll, buffer, max, -1): the descriptors of the events, none of them if it fails
  pub epoll_wait : World → ℤ → ℕ → List ℕ × World

-- The contracts that theorems assume of these calls.
module _ (os : Os) where
  open os use {World, read, write, sendfile}

  -- `read` never delivers more than it was asked for.
  pub record ReadsAtMost : Type 0 where
    pub at_most :
        (w w' : World) (fd count : ℕ) (block : List ℕ)
        → read w fd count ≡ (got block, w')
        → length block ≤ count

  -- A descriptor is a byte stream: `read` takes a block off its front, and a failed call nothing.
  pub record ReadsStream : Type 0 where
    pub pending : World → ℕ → List ℕ
    pub takes :
        (w w' : World) (fd count : ℕ) (block : List ℕ)
        → read w fd count ≡ (got block, w')
        → pending w fd ≡ block ++ pending w' fd
    pub keeps :
        (w w' : World) (fd count : ℕ) (e : Errno)
        → read w fd count ≡ (read_failed e, w')
        → pending w fd ≡ pending w' fd

  -- `read` waits for more to come, and the connection does not break off with an error.
  pub record ReadsBlocking : Type 0 where
    pub unfailing :
        (w w' : World) (fd count : ℕ) (e : Errno) → read w fd count ≢ (read_failed e, w')

  -- All that is to come has arrived: `read` takes as much as it is asked for, or what there is.
  pub record ReadsArrived : Type 0 where
    pub pending : World → ℕ → List ℕ
    pub gives :
        (w : World) (fd count b : ℕ) (bs : List ℕ)
        → 0 < count
        → pending w fd ≡ b ∷ bs
        → (w' : World) × (read w fd count ≡ (got (take count (b ∷ bs)), w'))
          × (pending w' fd ≡ drop count (b ∷ bs))

  -- `write` appends a prefix of its block to what the descriptor was sent, as long as the count
  -- that it returns, and a failed call appends nothing.
  pub record WritesStream : Type 0 where
    pub sent : World → ℕ → List ℕ
    pub accepts :
        (w w' : World) (fd n : ℕ) (block : List ℕ)
        → write w fd block ≡ (wrote n, w')
        → (n ≤ length block) × (sent w' fd ≡ sent w fd ++ take n block)
    pub refuses :
        (w w' : World) (fd : ℕ) (block : List ℕ) (e : Errno)
        → write w fd block ≡ (write_failed e, w')
        → sent w' fd ≡ sent w fd

  -- `sendfile` moves bytes from where a file is read next to the end of what a socket was sent,
  -- as many as it returns, and none when it fails.
  pub record SendsFile : Type 0 where
    pub sent : World → ℕ → List ℕ
    pub unsent : World → ℕ → List ℕ
    pub moves :
        (w w' : World) (out file count n : ℕ)
        → sendfile w out file count ≡ (wrote n, w')
        → (n ≤ count)
          × (sent w' out ≡ sent w out ++ take n (unsent w file))
          × (unsent w' file ≡ drop n (unsent w file))
    pub stays :
        (w w' : World) (out file count : ℕ) (e : Errno)
        → sendfile w out file count ≡ (write_failed e, w')
        → (sent w' out ≡ sent w out) × (unsent w' file ≡ unsent w file)

  -- `accept` takes one of the connections that wait on a listening socket, and says that it would
  -- block only when there is none. The other calls of the accept loop leave them waiting.
  pub record AcceptsQueue : Type 0 where
    pub waiting : World → ℕ → ℕ
    pub takes_one :
        (w w' : World) (fd c : ℕ)
        → os.accept w fd ≡ (accepted c, w')
        → waiting w fd ≡ 1 + waiting w' fd
    pub none_left :
        (w w' : World) (fd : ℕ) → os.accept w fd ≡ (accept_failed again, w') → waiting w fd ≡ 0
    pub fails :
        (w w' : World) (fd : ℕ) (e : Errno)
        → os.accept w fd ≡ (accept_failed e, w')
        → waiting w' fd ≤ waiting w fd
    pub unblocked : (w : World) (fd c : ℕ) → waiting (os.set_non_blocking w c) fd ≡ waiting w fd
    pub added :
        (w w' : World) (fd c : ℕ) (epoll code : ℤ) (mask : List EpollFlag)
        → os.epoll_add w epoll c mask ≡ (code, w')
        → waiting w' fd ≡ waiting w fd

  -- Reading does not change what was sent, nor writing what is to be read or what another
  -- descriptor was sent, and moving in a file changes neither.
  pub record KeepsApart (reads : ReadsStream) (writes : WritesStream) : Type 0 where
    pub read_keeps :
        (w : World) (fd count out : ℕ) → writes.sent (os.read w fd count).1 out ≡ writes.sent w out
    pub write_keeps :
        (w : World) (out : ℕ) (block : List ℕ) (fd : ℕ)
        → reads.pending (os.write w out block).1 fd ≡ reads.pending w fd
    pub write_apart :
        (w : World) (out other : ℕ) (block : List ℕ)
        → out ≢ other
        → writes.sent (os.write w out block).1 other ≡ writes.sent w other
    pub seek_keeps :
        (w : World) (file at fd : ℕ)
        → reads.pending (os.fseek_set w file at) fd ≡ reads.pending w fd
    pub seek_apart :
        (w : World) (file at out : ℕ) → writes.sent (os.fseek_set w file at) out ≡ writes.sent w out

  -- A file has a content, from which `fread` delivers what stands at the place that was
  -- sought, and the place of its end is its size.
  pub record ReadsFile : Type 0 where
    pub content : World → ℕ → List ℕ
    pub reads_at :
        (w : World) (file at count : ℕ)
        → (os.fread (os.fseek_set w file at) file count).0 ≡ take count (drop at (content w file))
    pub reads_only :
        (w : World) (file at count : ℕ)
        → content (os.fread (os.fseek_set w file at) file count).1 file ≡ content w file
    pub size_is :
        (w : World) (file : ℕ) → os.ftell (os.fseek_end w file) file ≡ length (content w file)
    pub end_keeps : (w : World) (file : ℕ) → content (os.fseek_end w file) file ≡ content w file
    pub set_keeps :
        (w : World) (file at : ℕ) → content (os.fseek_set w file at) file ≡ content w file
