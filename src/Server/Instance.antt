-- ===== src/Server/Instance.antt =====
-- The running server, `Server::INSTANCE`, as far as a session changes it: Server.h, and `kill` of
-- Server.cpp.
use cs_network_proj.Base.Int.{ℤ}
use cs_network_proj.Base.{ℕ, Bool, false, List}
use cs_network_proj.Base.Outcome.{Cmd, pure, ◌>>◌}
use cs_network_proj.Os.{Os}
use cs_network_proj.Server.ThreadPool.{Thread}
use cs_network_proj.Server.ThreadPool

-- Epoll.h: the descriptor of the epoll, -1 before `init`, and the size of its event buffer.
pub record Epoll : Type 0 where
  pub fd : ℤ
  pub max_events : ℕ

pub record Server : Type 0 where
  pub epoll : Epoll
  pub active : Bool
  pub thread_num : ℤ
  pub port : ℕ
  pub max_listen_queue : ℕ
  pub threads : List Thread

module _ (os : Os) where
  open os use {World}

  unfoldable pub kill : Server → Cmd World Server
  unfolding ThreadPool.kill
  kill s =
      let s' : Server = record s { active = false } in do ThreadPool.kill os s'.threads; pure s'
