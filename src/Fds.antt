-- ===== src/Fds.antt =====
-- pkg/fuse/passfd.go: the descriptors of FUSE mounts that the driver keeps for the mount pods, and
-- the server that hands a pod its descriptor and takes it back.
pub mod Descriptors
pub mod Count
pub mod Requests
pub mod Balance
pub mod Unchanged
pub mod Open
pub mod Calls
pub mod Stopping
pub mod Interrupted
use dingofs_csi.Common.{
  ℕ, zero, suc, String, Bool, true, false, not, ◌&&◌, ◌||◌, List, [], ◌∷◌, ◌++◌, Option, none, some,
  if◌then◌else◌, ◌==◌, is_empty, length, lookup, insert, delete, has_prefix,
}
use dingofs_csi.Common.Integers.{ℤ, pos, negsuc}
use dingofs_csi.Common.Exec.{
  Result, ok, err, Error, other, panicked, Exec, pure, raise, attempt, handle, ◌>>=◌, ◌>>◌,
}
use Descriptors.{
  Fd, Process, Sockets, call, try_call, close, close_each, is_positive, minus_one, do_with_timeout,
  get_fd, put_fd, get_fuse_fd, mkdir_all, remove, remove_all, note, closed, took, FdEvent,
}

unfoldable pub object_at : ℕ → List Fd → Option Fd
object_at a [] = none
object_at zero (f ∷ fs) = some f
object_at (suc a) (f ∷ fs) = object_at a fs

unfoldable pub set_object : ℕ → Fd → List Fd → List Fd
set_object a g [] = []
set_object zero g (f ∷ fs) = g ∷ fs
set_object (suc a) g (f ∷ fs) = f ∷ set_object a g fs

module _ {W : Type 0} where
  abbrev pub known_object : Option Fd → Exec (Process W) Fd
  known_object none = raise panicked
  known_object (some f) = pure f

  -- The object behind a pointer.
  unfoldable pub deref : ℕ → Exec (Process W) Fd
  deref a s = known_object (object_at a s.objects) s

  unfoldable pub store : ℕ → Fd → Exec (Process W) (Unit {0})
  store a f s = (ok tt, record s { objects = set_object a f s.objects })

  -- `fs.fds[podHashVal]`, and `fs.fds[podHashVal] = f`
  unfoldable pub entry : String → Exec (Process W) (Option ℕ)
  unfolding lookup
  entry hash s = (ok (lookup hash s.fds), s)

  unfoldable pub put_back : String → ℕ → Exec (Process W) (Unit {0})
  unfolding insert
  put_back hash a s = (ok tt, record s { fds = insert hash a s.fds })

  unfoldable pub drop_entry : String → Exec (Process W) (Unit {0})
  unfolding delete
  drop_entry hash s = (ok tt, record s { fds = delete hash s.fds })

  -- A new object, under the hash.
  unfoldable pub enter : String → Fd → Exec (Process W) (Unit {0})
  unfolding insert
  enter hash f s = (
    ok tt,
    record s { objects = s.objects ++ (f ∷ []); fds = insert hash (length s.objects) s.fds },
  )

  -- `close(f.done)`, which panics when it is closed already.
  unfoldable pub close_done : ℕ → Exec (Process W) (Unit {0})
  close_done a = do
    f ← deref a
    if f.is_done then raise panicked else store a (record f { is_done = true })

module _ {W C : Type 0} (k : Sockets W C) where
  abbrev pub server_socket : String
  server_socket = "fuse_fd_csi_comm.sock"

  unfoldable pub new_fd : (base_path hash : String) → Fd
  new_fd base_path hash = record {
    is_done = false;
    fuse_fd = pos 0;
    fuse_setting = "FUSE";
    server_address = k.join (k.join base_path hash) server_socket;
    server_address_in_pod = k.join base_path server_socket;
  }

  unfoldable pub add_at : (base_path hash : String) → Exec (Process W) String
  add_at base_path hash = do
    do_with_timeout k (do
      (exists, _) ← call (k.path_exists (k.join base_path hash))
      if exists then pure tt else try_call (k.perform (mkdir_all (k.join base_path hash))))
    enter hash (new_fd base_path hash)
    pure (k.join base_path server_socket)

  unfoldable pub add_fd : String → Exec (Process W) String
  add_fd hash s = add_at s.base_path hash s

  unfoldable pub address_by : String → Option ℕ → Exec (Process W) String
  address_by hash none = add_fd hash
  address_by hash (some a) = do f ← deref a; pure f.server_address_in_pod

  unfoldable pub get_fd_address : String → Exec (Process W) String
  get_fd_address hash = do o ← entry hash; address_by hash o

  abbrev pub remove_parent : String → Exec (Process W) (Unit {0})
  remove_parent path = attempt (try_call (k.perform (remove_all path))) >>= λ _. pure tt

  unfoldable pub forget_files : String → Exec (Process W) (Unit {0})
  forget_files path = do
    _ ← attempt (
        do_with_timeout k (do
          r ← attempt (try_call (k.stat path))
          handle r (λ _. remove_parent path) (λ _. pure tt)))
    pure tt

  unfoldable pub stop_found : String → ℕ → String → Exec (Process W) (Unit {0})
  stop_found hash a path = do
    close_done a
    drop_entry hash
    _ ← attempt (do_with_timeout k (remove_parent path))
    pure tt

  unfoldable pub stop_by : (hash path : String) → Option ℕ → Exec (Process W) (Unit {0})
  stop_by hash path none = forget_files path
  stop_by hash path (some a) = stop_found hash a path

  unfoldable pub stop_fd : String → Exec (Process W) (Unit {0})
  stop_fd hash s = (do o ← entry hash; stop_by hash (k.join s.base_path hash) o) s

  unfoldable pub close_found : String → ℕ → Exec (Process W) (Unit {0})
  close_found hash a = do
    f ← deref a
    close f.fuse_fd
    store a (record f { fuse_fd = minus_one })
    put_back hash a

  unfoldable pub close_by : String → Option ℕ → Exec (Process W) (Unit {0})
  close_by hash none = pure tt
  close_by hash (some a) = close_found hash a

  unfoldable pub close_fd : String → Exec (Process W) (Unit {0})
  close_fd hash = do o ← entry hash; close_by hash o

  unfoldable start_server : String → ℕ → Exec (Process W) (Unit {0})
  start_server hash a s = (ok tt, record s { servers = (hash, a) ∷ s.servers })

  unfoldable pub serve_at : String → ℕ → Exec (Process W) (Unit {0})
  unfolding start_server
  serve_at hash a = do
    f ← deref a
    _ ← attempt (
        do_with_timeout k
          (attempt (try_call (k.perform (remove f.server_address))) >>= λ _. pure tt))
    r ← attempt (try_call (k.listen f.server_address))
    handle r (λ _. start_server hash a) (λ _. pure tt)

  unfoldable pub serve_by : String → Option ℕ → Exec (Process W) (Unit {0})
  serve_by hash none = pure tt
  serve_by hash (some a) = serve_at hash a

  -- serveFuseFD up to its goroutines, and ServeFuseFd
  unfoldable pub serve_found : String → Exec (Process W) (Unit {0})
  serve_found hash = do o ← entry hash; serve_by hash o

  unfoldable pub serve_if_known : String → Option ℕ → Exec (Process W) (Unit {0})
  serve_if_known hash none = raise other
  serve_if_known hash (some a) = serve_found hash

  unfoldable pub serve_fuse_fd : String → Exec (Process W) (Unit {0})
  serve_fuse_fd hash = do o ← entry hash; serve_if_known hash o

  -- The goroutine that waits for `done`, after it has come: it closes what the object has then.
  unfoldable pub after_done : ℕ → Exec (Process W) (Unit {0})
  after_done a = do
    f ← deref a
    if not f.is_done then pure tt else do
      close f.fuse_fd
      _ ← attempt (do_with_timeout k (try_call (k.perform (remove f.server_address))))
      pure tt

  unfoldable pub enter_at : (base_path hash : String) → ℤ × String → Exec (Process W) (Unit {0})
  enter_at base_path hash (fuse_fd, msg) = if not (is_positive fuse_fd) then pure tt else do
    enter hash (record (new_fd base_path hash) { fuse_fd = fuse_fd; fuse_setting = msg })
    serve_found hash

  unfoldable pub enter_parsed : String → ℤ × String → Exec (Process W) (Unit {0})
  enter_parsed hash received s = enter_at s.base_path hash received s

  unfoldable pub parse_fuse : (hash path : String) → Exec (Process W) (Unit {0})
  parse_fuse hash path = do received ← get_fuse_fd k path; enter_parsed hash received

  unfoldable parse_entries :
      (hash path : String) → List (String × Bool) → Exec (Process W) (Unit {0})
  unfolding has_prefix
  parse_entries hash path [] = pure tt
  parse_entries hash path (e ∷ es) =
      let rest = parse_entries hash path es in
      if has_prefix e.0 "fuse_fd_comm." then parse_fuse hash (k.join path e.0) >> rest else rest

  unfoldable parse_dirs : String → List (String × Bool) → Exec (Process W) (Unit {0})
  parse_dirs base_path [] = pure tt
  parse_dirs base_path (e ∷ es) =
      let rest = parse_dirs base_path es in
      if not e.1 then rest else do
        entries ← do_with_timeout k (try_call (k.read_dir (k.join base_path e.0)))
        parse_entries e.0 (k.join base_path e.0) entries
        rest

  -- ParseFuseFds, over the directories of the pods
  unfoldable pub parse_fuse_fds : Exec (Process W) (Unit {0})
  unfolding parse_entries parse_dirs
  parse_fuse_fds s =
      (do
        entries ← do_with_timeout k (try_call (k.read_dir s.base_path))
        parse_dirs s.base_path entries)
        s
