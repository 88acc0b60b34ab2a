-- ===== src/Fds/Requests.antt =====
-- handleFDRequest of pkg/fuse/passfd.go: a request's descriptor is handed out, and what the pod
-- sends back is kept. Each of the two parts under the object's mutex is an operation.
use dingofs_csi.Common.{
  ℕ, String, not, ◌&&◌, List, [], ◌∷◌, Option, none, some, if◌then◌else◌, ◌==◌,
}
use dingofs_csi.Common.Integers.{ℤ, pos}
use dingofs_csi.Common.Exec.{Exec, pure, attempt, ◌>>=◌, ◌>>◌}
use dingofs_csi.Fds.Descriptors.{
  Fd, Process, Sockets, close, close_each, is_positive, minus_one, get_fd, put_fd,
}
use dingofs_csi.Fds.{deref, store, entry, put_back}

abbrev pub sent_fds : ℤ → List ℤ
sent_fds fuse_fd = pos 0 ∷ (if is_positive fuse_fd then fuse_fd ∷ [] else [])

module _ {W : Type 0} where
  -- The first descriptor that came back is kept, or all are closed.
  unfoldable pub keep_or_close : ℕ → Fd → String → List ℤ → Exec (Process W) (Unit {0})
  keep_or_close a f msg [] = pure tt
  keep_or_close a f msg (fd ∷ fds) =
      if not (msg == "CLOSE") && not (is_positive f.fuse_fd)
      then store a (record f { fuse_fd = fd; fuse_setting = msg })
      else close_each (fd ∷ fds)

  unfoldable pub take_back : ℕ → String → List ℤ → Exec (Process W) (Unit {0})
  take_back a msg fds = do f ← deref a; keep_or_close a f msg fds

module _ {W C : Type 0} (k : Sockets W C) where
  -- The descriptor is handed out: its copy here is closed.
  unfoldable pub hand_out : C → ℕ → Exec (Process W) (Unit {0})
  hand_out conn a = do
    f ← deref a
    put_fd k conn f.fuse_setting (sent_fds f.fuse_fd)
    if not (is_positive f.fuse_fd)
        then pure tt
        else do close f.fuse_fd; store a (record f { fuse_fd = minus_one })

  -- Up to the answer of the pod, for which other calls need not wait.
  unfoldable pub ask_pod : C → ℕ → Exec (Process W) (String × List ℤ)
  ask_pod conn a = do hand_out conn a; get_fd k conn 1

  -- From the answer on.
  unfoldable pub finish_request : String → ℕ → String × List ℤ → Exec (Process W) (Unit {0})
  finish_request hash a (msg, fds) = do take_back a msg fds; put_back hash a

  unfoldable pub serve_request : String → C → ℕ → Exec (Process W) (Unit {0})
  serve_request hash conn a = do answer ← ask_pod conn a; finish_request hash a answer

  -- Errors are only logged.
  unfoldable pub serve_entry : String → C → Option ℕ → Exec (Process W) (Unit {0})
  serve_entry hash conn none = pure tt
  serve_entry hash conn (some a) = do _ ← attempt (serve_request hash conn a); pure tt

  unfoldable pub handle_fd_request : String → C → Exec (Process W) (Unit {0})
  handle_fd_request hash conn = do o ← entry hash; serve_entry hash conn o
