-- ===== src/Fds/Descriptors.antt =====
-- The process that pkg/fuse/passfd.go runs in, and the messages with descriptors that getFd, putFd
-- and getFuseFd exchange over Unix sockets.
use dingofs_csi.Common.{
  ℕ, zero, suc, String, Bool, true, false, not, List, [], ◌∷◌, ◌++◌, if◌then◌else◌,
}
use dingofs_csi.Common.Integers.{ℤ, pos, negsuc}
use dingofs_csi.Common.Exec.{
  Result, ok, err, other, panicked, Exec, pure, raise, attempt, handle, ◌>>=◌, ◌>>◌,
}

-- `struct fd`: `is_done` says that the channel `done` is closed.
pub record Fd : Type 0 where
  pub is_done : Bool
  pub fuse_fd : ℤ
  pub fuse_setting : String
  pub server_address : String
  pub server_address_in_pod : String

-- What was done with descriptors: closed, or taken over from a message.
pub data FdEvent : Type 0 where
  closed : ℤ → FdEvent
  took : ℤ → FdEvent

-- `Fds` with the objects that its map points to, by their place in the list, newest last; `log` and
-- `servers`, the hashes and objects of the goroutines that serveFuseFD starts, are newest first.
pub record Process (W : Type 0) : Type 0 where
  pub world : W
  pub base_path : String
  pub fds : List (String × ℕ)
  pub objects : List Fd
  pub log : List FdEvent
  pub servers : List (String × ℕ)

pub data FileAction : Type 0 where
  mkdir_all : (path : String) → FileAction
  remove : (path : String) → FileAction
  remove_all : (path : String) → FileAction

-- What the code calls of os, path, net and syscall. A control message is what ParseUnixRights
-- answers for it.
pub record Sockets (W C : Type 0) : Type 0 where
  pub join : (dir name : String) → String
  -- whether the time limit of DoWithTimeout has passed
  pub timed_out : W → Bool × W
  pub path_exists : String → W → (Bool × Result (Unit {0})) × W
  pub stat : String → W → Result (Unit {0}) × W
  -- the entries' names, and whether they are directories
  pub read_dir : String → W → Result (List (String × Bool)) × W
  pub perform : FileAction → W → Result (Unit {0}) × W
  pub listen : (address : String) → W → Result (Unit {0}) × W
  pub dial : (address : String) → W → Result C × W
  pub file : C → W → Result (Unit {0}) × W
  pub sendmsg : C → String → List ℤ → W → Result (Unit {0}) × W
  -- with room for so many descriptors: the text and the control messages, if they parse
  pub recvmsg : C → ℕ → W → Result (String × Result (List (Result (List ℤ)))) × W

module _ {W A : Type 0} where
  unfoldable pub call : (W → A × W) → Exec (Process W) A
  call f s = let (a, w) = f s.world in (ok a, record s { world = w })

  unfoldable pub try_call : (W → Result A × W) → Exec (Process W) A
  try_call f s = let (r, w) = f s.world in (r, record s { world = w })

module _ {W : Type 0} where
  unfoldable pub note : FdEvent → Exec (Process W) (Unit {0})
  note e s = (ok tt, record s { log = e ∷ s.log })

  -- syscall.Close, whose error is ignored everywhere
  abbrev pub close : ℤ → Exec (Process W) (Unit {0})
  close fd = note (closed fd)

  unfoldable pub close_each : List ℤ → Exec (Process W) (Unit {0})
  close_each [] = pure tt
  close_each (fd ∷ fds) = do close fd; close_each fds

  unfoldable pub take_each : List ℤ → Exec (Process W) (Unit {0})
  take_each [] = pure tt
  take_each (fd ∷ fds) = do note (took fd); take_each fds

  -- The loop of getFd over the control messages, with the descriptors so far.
  unfoldable pub rights_of : List (Result (List ℤ)) → List ℤ → Exec (Process W) (List ℤ)
  rights_of [] fds = pure fds
  rights_of (ok rights ∷ msgs) fds = do take_each rights; rights_of msgs (fds ++ rights)
  rights_of (err e ∷ msgs) fds = do close_each fds; raise e

-- `f.fuseFd > 0`
abbrev pub is_positive : ℤ → Bool
is_positive (pos zero) = false
is_positive (pos (suc n)) = true
is_positive (negsuc n) = false

abbrev pub minus_one : ℤ
minus_one = negsuc 0

module _ {W C : Type 0} (k : Sockets W C) where
  -- An action under DoWithTimeout: its own answer, unless the limit passes.
  unfoldable pub do_with_timeout : {A : Type 0} → Exec (Process W) A → Exec (Process W) A
  do_with_timeout m = do
    r ← attempt m
    late ← call k.timed_out
    if late then raise other else handle r pure raise

  unfoldable pub get_fd : C → ℕ → Exec (Process W) (String × List ℤ)
  get_fd via zero = pure ("", [])
  get_fd via num = do
    try_call (k.file via)
    (msg, parsed) ← try_call (k.recvmsg via num)
    msgs ← handle parsed pure raise
    fds ← rights_of msgs []
    pure (msg, fds)

  unfoldable pub put_fd : C → String → List ℤ → Exec (Process W) (Unit {0})
  put_fd via msg [] = pure tt
  put_fd via msg fds = do try_call (k.file via); try_call (k.sendmsg via msg fds)

  -- The first descriptor is closed; Go panics where there is none.
  unfoldable pub after_receipt : C → String → List ℤ → Exec (Process W) (ℤ × String)
  after_receipt conn msg [] = raise panicked
  after_receipt conn msg (fd ∷ []) = do close fd; pure (pos 0, "")
  after_receipt conn msg (fd ∷ fuse_fd ∷ fds) = do
    close fd
    _ ← attempt (put_fd conn msg (fuse_fd ∷ []))
    pure (fuse_fd, msg)

  abbrev pub no_fuse_fd : {A : Type 0} → A → Exec (Process W) (ℤ × String)
  no_fuse_fd _ = pure (minus_one, "")

  unfoldable pub exchange : C → Exec (Process W) (ℤ × String)
  exchange conn = do
    r ← attempt (get_fd conn 2)
    handle r (λ received. after_receipt conn received.0 received.1) no_fuse_fd

  unfoldable pub get_fuse_fd : String → Exec (Process W) (ℤ × String)
  get_fuse_fd path = do
    r ← attempt (
        do_with_timeout
          (do (exists, e) ← call (k.path_exists path); handle e (λ _. pure exists) raise))
    handle r
        (λ exists.
          if not exists
          then no_fuse_fd tt
          else do d ← attempt (try_call (k.dial path)); handle d exchange no_fuse_fd)
        no_fuse_fd
