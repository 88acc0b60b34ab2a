-- ===== src/Fds/Calls.antt =====
-- Each function of pkg/fuse/passfd.go but StopFd keeps the channels of the table open.
use dingofs_csi.Common.{ℕ, String, false, not, List, [], ◌∷◌, Option, none, some, ◌≡◌, refl, lookup}
use dingofs_csi.Common.Integers.{ℤ}
use dingofs_csi.Common.Exec.{
  Exec, ◌>>=◌, ◌>>◌, Meets, Keeps, Meets-pure, Meets-bind, Meets-if, Meets-weaken, Keeps-bind,
  Meets-answer,
}
use dingofs_csi.Fds.Descriptors.{Fd, Process, Sockets, closed, close, is_positive, minus_one}
use dingofs_csi.Fds.{
  store, entry, put_back, enter, new_fd, enter_at, add_at, add_fd, get_fd_address, address_by,
  close_found, close_fd, close_by, serve_at, serve_found, serve_by, serve_fuse_fd, serve_if_known,
  after_done, parse_fuse, enter_parsed, start_server,
}
use dingofs_csi.Fds.Requests.{
  hand_out, keep_or_close, take_back, ask_pod, finish_request, serve_request, serve_entry,
  handle_fd_request, sent_fds,
}
use dingofs_csi.Fds.Unchanged.{
  Told, Keeps-try, Keeps-call, Keeps-note, Keeps-pure, Keeps-raise, Keeps-answer, Keeps-handle,
  Keeps-close_each, Keeps-do_with_timeout, Keeps-get_fd, Keeps-put_fd, Keeps-get_fuse_fd,
}
use dingofs_csi.Fds.Open.{
  IsOpen, Entered, With, set_object-IsOpen, enter-IsOpen, insert-IsOpen, Meets-deref,
}

module _ {W C : Type 0} (k : Sockets W C) where
  store-Entered :
      (hash : String) (a : ℕ) (f g : Fd)
      → g.is_done ≡ f.is_done
      → Meets (Told (With (Entered hash a) a f)) (store {W = W} a g) (λ _. Told (Entered hash a))
  unfolding store
  store-Entered hash a f g d = record {
    at = λ s (e, (o, l)). (set_object-IsOpen a f g s.fds s.objects e d o, l);
  }

  put_back-IsOpen :
      (hash : String) (a : ℕ)
      → Meets (Told (Entered hash a)) (put_back {W = W} hash a) (λ _. Told IsOpen)
  unfolding put_back
  put_back-IsOpen hash a = record { at = λ s p. insert-IsOpen hash a s.fds s.objects p }

  hand_out-Entered :
      (hash : String) (conn : C) (a : ℕ) → Keeps (Told (Entered hash a)) (hand_out k conn a)
  unfolding hand_out
  hand_out-Entered hash conn a =
      Meets-deref (Entered hash a) _ a _ (λ s p. p)
        λ f.
          Meets-bind (λ _. Told (With (Entered hash a) a f)) _ _
            (Keeps-put_fd k (With (Entered hash a) a f) conn f.fuse_setting (sent_fds f.fuse_fd))
            (λ _.
              Meets-if _ _ (not (is_positive f.fuse_fd)) _
                (close f.fuse_fd >> store {W = W} a (record f { fuse_fd = minus_one }))
                (λ e. Meets-pure _ _ _ (λ s p. p.1))
                (λ e.
                  Meets-bind (λ _. Told (With (Entered hash a) a f)) _ _
                    (Keeps-note (With (Entered hash a) a f) (closed f.fuse_fd))
                    (λ _. store-Entered hash a f (record f { fuse_fd = minus_one }) refl)
                    (λ e s p. p.1)))
            (λ e s p. p.1)

  take_back-Entered :
      (hash : String) (a : ℕ) (msg : String) (fds : List ℤ)
      → Keeps (Told (Entered hash a)) (take_back {W = W} a msg fds)
  unfolding take_back keep_or_close
  take_back-Entered hash a msg fds = Meets-deref (Entered hash a) _ a _ (λ s p. p) (λ f. kept f fds)
    where
      kept :
          (f : Fd) (fds : List ℤ)
          → Meets
              (Told (With (Entered hash a) a f))
              (keep_or_close {W = W} a f msg fds)
              (λ _. Told (Entered hash a))
      kept f [] = Meets-pure _ _ _ (λ s p. p.1)
      kept f (fd ∷ fds) =
          Meets-if _ _ _ _ _
            (λ e. store-Entered hash a f (record f { fuse_fd = fd; fuse_setting = msg }) refl)
            (λ e.
              Meets-weaken (λ s p. p.1) (λ r s q. q) (Keeps-close_each (Entered hash a) (fd ∷ fds)))

  pub ask_pod-Entered :
      (hash : String) (conn : C) (a : ℕ) → Keeps (Told (Entered hash a)) (ask_pod k conn a)
  unfolding ask_pod
  ask_pod-Entered hash conn a =
      Keeps-bind _ _ (hand_out-Entered hash conn a) (λ _. Keeps-get_fd k (Entered hash a) conn 1)

  serve_request-IsOpen :
      (hash : String) (conn : C) (a : ℕ)
      → Meets (Told (Entered hash a)) (serve_request k hash conn a) (λ _. Told IsOpen)
  unfolding serve_request finish_request
  serve_request-IsOpen hash conn a =
      Meets-bind (λ _. Told (Entered hash a)) _ _ (ask_pod-Entered hash conn a)
        (λ (msg, fds).
          Meets-bind (λ _. Told (Entered hash a)) _ _ (take_back-Entered hash a msg fds)
            (λ _. put_back-IsOpen hash a) (λ e s p. p.0))
        (λ e s p. p.0)

  -- What is done with an entry, when it is looked up first.
  entry-Meets :
      {A : Type 0} (hash : String) (m : Option ℕ → Exec (Process W) A)
      → Keeps (Told IsOpen) (m none)
      → ((a : ℕ) → Meets (Told (Entered hash a)) (m (some a)) (λ _. Told IsOpen))
      → Keeps (Told IsOpen) (entry hash >>= m)
  unfolding entry ◌>>=◌
  entry-Meets hash m h k = record { at = λ s p. by s p (lookup hash s.fds) refl }
    where
      by :
          (s : Process W)
          → Told IsOpen s
          → (o : Option ℕ) → lookup hash s.fds ≡ o
          → Told IsOpen (m o s).1
      by s p none e = h.at s p
      by s p (some a) e = (k a).at s (p, e)

  pub handle_fd_request-IsOpen :
      (hash : String) (conn : C) → Keeps (Told IsOpen) (handle_fd_request k hash conn)
  unfolding handle_fd_request serve_entry
  handle_fd_request-IsOpen hash conn = entry-Meets hash _ (Keeps-pure IsOpen tt) λ a.
      Meets-answer (λ _. Told IsOpen) _ _ (serve_request-IsOpen hash conn a)
        (λ _. Keeps-pure IsOpen tt)

  pub close_fd-IsOpen : (hash : String) → Keeps (Told IsOpen) (close_fd k hash)
  unfolding close_fd close_by close_found
  close_fd-IsOpen hash = entry-Meets hash _ (Keeps-pure IsOpen tt) λ a.
      Meets-deref (Entered hash a) _ a _ (λ s p. p.0)
        λ f.
          Meets-bind (λ _. Told (With (Entered hash a) a f)) _ _
            (Keeps-note (With (Entered hash a) a f) (closed f.fuse_fd))
            (λ _.
              Meets-bind (λ _. Told (Entered hash a)) _ _
                (store-Entered hash a f (record f { fuse_fd = minus_one }) refl)
                (λ _. put_back-IsOpen hash a) (λ e s p. p.0))
            (λ e s p. p.1.0)

  enter-Keeps :
      (hash : String) (f : Fd) → f.is_done ≡ false → Keeps (Told IsOpen) (enter {W = W} hash f)
  unfolding enter
  enter-Keeps hash f d = record { at = λ s p. enter-IsOpen hash f s.fds s.objects d p }

  pub get_fd_address-IsOpen : (hash : String) → Keeps (Told IsOpen) (get_fd_address k hash)
  unfolding get_fd_address address_by add_fd add_at new_fd
  get_fd_address-IsOpen hash =
      entry-Meets hash _ added (λ a.
        Meets-deref (Entered hash a) _ a _ (λ s p. p.0) (λ f. Meets-pure _ _ _ (λ s p. p.1.0)))
    where
      added : Keeps (Told IsOpen) (add_fd k hash)
      added = record { at = λ s p. (inside s.base_path).at s p }
        where
          inside : (base_path : String) → Keeps (Told IsOpen) (add_at k base_path hash)
          inside base_path =
              Keeps-bind _ _
                (Keeps-do_with_timeout k IsOpen _ (
                  Keeps-bind _ _ (Keeps-call IsOpen _) (λ (exists, _).
                    Meets-if _ _ exists _ _ (λ _. Keeps-pure IsOpen tt) (λ _. Keeps-try IsOpen _))))
                (λ _.
                  Keeps-bind _ _ (enter-Keeps hash (new_fd k base_path hash) refl)
                    (λ _. Keeps-pure IsOpen _))

  serve_at-IsOpen : (hash : String) (a : ℕ) → Keeps (Told IsOpen) (serve_at k hash a)
  unfolding serve_at
  serve_at-IsOpen hash a =
      Meets-deref IsOpen _ a _ (λ s p. p)
        λ f.
          Meets-weaken (λ s p. p.1) (λ r s p. p)
            (Keeps-answer IsOpen _ _
              (Keeps-do_with_timeout k IsOpen _
                (Keeps-answer IsOpen _ _ (Keeps-try IsOpen _) (λ _. Keeps-pure IsOpen tt)))
              (λ _.
                Keeps-answer IsOpen _ _ (Keeps-try IsOpen _)
                  (λ r. Keeps-handle IsOpen r _ _ (λ _. started) (λ _. Keeps-pure IsOpen tt))))
    where
      started : Keeps (Told IsOpen) (start_server k hash a)
      started = record { at = λ s p. p }

  serve_found-IsOpen : (hash : String) → Keeps (Told IsOpen) (serve_found k hash)
  unfolding serve_found serve_by
  serve_found-IsOpen hash =
      entry-Meets hash _ (Keeps-pure IsOpen tt)
        (λ a. Meets-weaken (λ s p. p.0) (λ r s p. p) (serve_at-IsOpen hash a))

  pub serve_fuse_fd-IsOpen : (hash : String) → Keeps (Told IsOpen) (serve_fuse_fd k hash)
  unfolding serve_fuse_fd serve_if_known
  serve_fuse_fd-IsOpen hash =
      entry-Meets hash _ (Keeps-raise IsOpen _)
        (λ a. Meets-weaken (λ s p. p.0) (λ r s p. p) (serve_found-IsOpen hash))

  pub after_done-IsOpen : (a : ℕ) → Keeps (Told IsOpen) (after_done k a)
  unfolding after_done
  after_done-IsOpen a =
      Meets-deref IsOpen _ a _ (λ s p. p)
        λ f.
          Meets-weaken (λ s p. p.1) (λ r s p. p)
            (Meets-if _ _ (not f.is_done) _ _ (λ _. Keeps-pure IsOpen tt)
              (λ _. Keeps-bind _ _ (Keeps-note IsOpen _) (λ _.
                Keeps-answer IsOpen _ _ (Keeps-do_with_timeout k IsOpen _ (Keeps-try IsOpen _))
                  (λ _. Keeps-pure IsOpen tt))))

  pub parse_fuse-IsOpen : (hash path : String) → Keeps (Told IsOpen) (parse_fuse k hash path)
  unfolding parse_fuse enter_parsed enter_at new_fd
  parse_fuse-IsOpen hash path =
      Keeps-bind _ _ (Keeps-get_fuse_fd k IsOpen path) (λ received. entered received)
    where
      entered : (received : ℤ × String) → Keeps (Told IsOpen) (enter_parsed k hash received)
      entered (fuse_fd, msg) = record { at = λ s p. (inside s.base_path).at s p }
        where
          inside :
              (base_path : String) → Keeps (Told IsOpen) (enter_at k base_path hash (fuse_fd, msg))
          inside base_path =
              Meets-if _ _ (not (is_positive fuse_fd)) _ _ (λ _. Keeps-pure IsOpen tt)
                (λ _. Keeps-bind _ _ (enter-Keeps hash _ refl) (λ _. serve_found-IsOpen hash))
