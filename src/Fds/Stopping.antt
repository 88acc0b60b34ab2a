-- ===== src/Fds/Stopping.antt =====
-- StopFd of pkg/fuse/passfd.go closes the channel `done` of an entry once, unless a request that
-- was in progress puts the entry back.
use dingofs_csi.Common.{
  ℕ, String, Bool, true, false, List, [], ◌∷◌, Option, none, some, ◌≡◌, refl, if◌then◌else◌, arith,
  lookup, delete, lookup-delete, ◌∙◌, ==_refl,
}
use dingofs_csi.Common.Exec.{
  Result, ok, panicked, Exec, pure, raise, attempt, ◌>>=◌, Meets, Keeps, Meets-pure, Meets-bind,
  Meets-weaken, Meets-answer,
}
use dingofs_csi.Fds.Descriptors.{Fd, Process, Sockets}
use dingofs_csi.Fds.{
  object_at, deref, known_object, store, entry, drop_entry, close_done, get_fd_address,
  forget_files, stop_found, stop_fd, stop_by, close_fd, serve_fuse_fd, after_done, parse_fuse,
  remove_parent,
}
use dingofs_csi.Fds.Requests.{handle_fd_request}
use dingofs_csi.Fds.Unchanged.{
  done_at, done_at-set_object, done_at-object_at, Told, Keeps-try, Keeps-pure, Keeps-answer,
  Keeps-handle, Keeps-do_with_timeout,
}
use dingofs_csi.Fds.Open.{IsOpen, Entered, drop-IsOpen, done_at-none}
use dingofs_csi.Fds.Calls.{
  get_fd_address-IsOpen, close_fd-IsOpen, handle_fd_request-IsOpen, serve_fuse_fd-IsOpen,
  after_done-IsOpen, parse_fuse-IsOpen,
}

module _ {W C : Type 0} (k : Sockets W C) where
  -- After StopFd: it did not panic, the entry is gone and its channel is closed.
  Stopped : String → Option ℕ → Result (Unit {0}) → Process W → Type 0
  Stopped hash none r s = (r ≡ ok tt) × Told IsOpen s × (lookup hash s.fds ≡ none)
  Stopped hash (some a) r s =
      (r ≡ ok tt) × Told IsOpen s × (lookup hash s.fds ≡ none) × (done_at a s.objects ≡ some true)

  -- A call whose error is ignored.
  Meets-ignored :
      (P : List (String × ℕ) → List Fd → Type 0) (m : Exec (Process W) (Unit {0}))
      → Keeps (Told P) m
      → Meets (Told P) (attempt m >>= λ _. pure tt) (λ r s. (r ≡ ok tt) × Told P s)
  Meets-ignored P m h = Meets-answer (λ _. Told P) m _ h (λ _. Meets-pure _ _ tt (λ s p. (refl, p)))

  remove_parent-Keeps :
      (P : List (String × ℕ) → List Fd → Type 0) (path : String)
      → Keeps (Told P) (remove_parent k path)
  remove_parent-Keeps P path = Keeps-answer P _ _ (Keeps-try P _) (λ _. Keeps-pure P tt)

  -- The channel of the entry is closed, and the entry still there.
  Closing : String → ℕ → Result (Unit {0}) → Process W → Type 0
  Closing hash a r s =
      (r ≡ ok tt) × IsOpen (delete hash s.fds) s.objects × (done_at a s.objects ≡ some true)

  close_done-Closing :
      (hash : String) (a : ℕ)
      → Meets (Told (Entered hash a)) (close_done {W = W} a) (Closing hash a)
  unfolding close_done deref ◌>>=◌ store raise pure Closing
  close_done-Closing hash a = record { at = λ s p. by s p (object_at a s.objects) refl }
    where
      by_flag :
          (s : Process W)
          → Told (Entered hash a) s
          → (f : Fd) → object_at a s.objects ≡ some f
          → (b : Bool) → f.is_done ≡ b
          → Closing hash a
              ((if b then raise panicked else store a (record f { is_done = true })) s).0
              ((if b then raise panicked else store a (record f { is_done = true })) s).1
      by_flag s (o, l) f e true d =
          let x = o.open_at hash a l in let y = done_at-object_at a s.objects f e in absurd cc
      by_flag s p f e false d = (
        refl,
        drop-IsOpen hash a f (record f { is_done = true }) s.fds s.objects e p,
        ground (arith, done_at-set_object a a f (record f { is_done = true }) s.objects e),
      )

      by :
          (s : Process W)
          → Told (Entered hash a) s
          → (o : Option Fd) → object_at a s.objects ≡ o
          → Closing hash a
              ((known_object o >>= λ f.
                  if f.is_done then raise panicked else store a (record f { is_done = true }))
                s).0
              ((known_object o >>= λ f.
                  if f.is_done then raise panicked else store a (record f { is_done = true }))
                s).1
      by s (o, l) none e =
          let x = o.open_at hash a l in let y = done_at-none a s.objects e in absurd cc
      by s p (some f) e = by_flag s p f e f.is_done refl

  Gone : String → ℕ → List (String × ℕ) → List Fd → Type 0
  Gone hash a fds fs = IsOpen fds fs × (lookup hash fds ≡ none) × (done_at a fs ≡ some true)

  Free : String → List (String × ℕ) → List Fd → Type 0
  Free hash fds fs = IsOpen fds fs × (lookup hash fds ≡ none)

  drop_entry-Gone :
      (hash : String) (a : ℕ)
      → Meets
          (Closing hash a (ok tt))
          (drop_entry {W = W} hash)
          (λ r s. (r ≡ ok tt) × Told (Gone hash a) s)
  unfolding drop_entry Closing Gone
  drop_entry-Gone hash a = record {
    at = λ s (_, o, d). (refl, (o, lookup-delete hash hash s.fds ∙ rw (==_refl hash) refl, d));
  }

  stop_by-Stopped :
      (hash path : String) (o : Option ℕ)
      → Meets
          (λ s. Told IsOpen s × (lookup hash s.fds ≡ o))
          (stop_by k hash path o)
          (Stopped hash o)
  unfolding Stopped stop_by forget_files stop_found Free Gone Closing
  stop_by-Stopped hash path none =
      Meets-weaken {P' = Told (Free hash)} (λ s p. (p.0, p.1)) (λ r s (e, (o, l)). (e, o, l))
        (Meets-ignored (Free hash) _ (
          Keeps-do_with_timeout k (Free hash) _ (
            Keeps-answer (Free hash) _ _ (Keeps-try (Free hash) _) (λ r.
              Keeps-handle (Free hash) r _ _ (λ _. remove_parent-Keeps (Free hash) path)
                (λ _. Keeps-pure (Free hash) tt)))))
  stop_by-Stopped hash path (some a) =
      Meets-bind (Closing hash a) _ _ (close_done-Closing hash a)
        (λ _.
          Meets-bind (λ r s. (r ≡ ok tt) × Told (Gone hash a) s) _ _ (drop_entry-Gone hash a)
            (λ _.
              Meets-weaken (λ s p. p.1) (λ r s (e, (o, l, d)). (e, o, l, d))
                (Meets-ignored (Gone hash a) _ (
                  Keeps-do_with_timeout k (Gone hash a) _
                    (remove_parent-Keeps (Gone hash a) path))))
            (λ e s p. let q = p.0 in absurd cc))
        (λ e s p. let q = p.0 in absurd cc)

  -- The states that whole calls reach, one after another, in any order.
  pub data Reached : Process W → Type 0 where
    start : (s : Process W) → s.fds ≡ [] → Reached s
    get_address : {s : Process W} (hash : String) → Reached s → Reached (get_fd_address k hash s).1
    parse : {s : Process W} (hash path : String) → Reached s → Reached (parse_fuse k hash path s).1
    serve : {s : Process W} (hash : String) → Reached s → Reached (serve_fuse_fd k hash s).1
    request :
        {s : Process W} (hash : String) (conn : C)
        → Reached s
        → Reached (handle_fd_request k hash conn s).1
    close_one : {s : Process W} (hash : String) → Reached s → Reached (close_fd k hash s).1
    stop : {s : Process W} (hash : String) → Reached s → Reached (stop_fd k hash s).1
    finish : {s : Process W} (a : ℕ) → Reached s → Reached (after_done k a s).1

  stop_fd-Stopped :
      (hash : String) (s : Process W)
      → Told IsOpen s
      → Stopped hash (lookup hash s.fds) (stop_fd k hash s).0 (stop_fd k hash s).1
  unfolding stop_fd entry ◌>>=◌
  stop_fd-Stopped hash s p =
      (stop_by-Stopped hash (k.join s.base_path hash) (lookup hash s.fds)).at s (p, refl)

  Stopped-cases :
      (hash : String) (o : Option ℕ) (r : Result (Unit {0})) (s : Process W)
      → Stopped hash o r s
      → (r ≡ ok tt) × Told IsOpen s × (lookup hash s.fds ≡ none)
  unfolding Stopped
  Stopped-cases hash none r s p = p
  Stopped-cases hash (some a) r s (e, o, l, d) = (e, o, l)

  pub Reached-IsOpen : {s : Process W} → Reached s → Told IsOpen s
  unfolding lookup
  Reached-IsOpen (start s e) = record {
    open_at = λ hash a l. absurd (nothing hash a s.fds e l);
    distinct = λ hash other a l m. absurd (nothing hash a s.fds e l);
  }
    where
      nothing :
          (hash : String) (a : ℕ) (fds : List (String × ℕ))
          → fds ≡ []
          → lookup hash fds ≡ some a
          → ⊥
      nothing hash a [] e l = absurd cc
      nothing hash a (x ∷ xs) e l = absurd cc
  Reached-IsOpen (get_address hash r) = (get_fd_address-IsOpen k hash).at _ (Reached-IsOpen r)
  Reached-IsOpen (parse hash path r) = (parse_fuse-IsOpen k hash path).at _ (Reached-IsOpen r)
  Reached-IsOpen (serve hash r) = (serve_fuse_fd-IsOpen k hash).at _ (Reached-IsOpen r)
  Reached-IsOpen (request hash conn r) =
      (handle_fd_request-IsOpen k hash conn).at _ (Reached-IsOpen r)
  Reached-IsOpen (close_one hash r) = (close_fd-IsOpen k hash).at _ (Reached-IsOpen r)
  Reached-IsOpen (stop {s} hash r) =
      (Stopped-cases hash (lookup hash s.fds) _ _ (stop_fd-Stopped hash s (Reached-IsOpen r))).1
  Reached-IsOpen (finish a r) = (after_done-IsOpen k a).at _ (Reached-IsOpen r)

  -- In every state that the functions of the table reach from an empty one, whole calls one after
  -- another in any order, StopFd returns without a panic on a closed channel and leaves no entry
  -- for its hash
  pub Reached-stops :
      {s : Process W}
      → Reached s
      → (hash : String)
      → ((stop_fd k hash s).0 ≡ ok tt) × (lookup hash (stop_fd k hash s).1.fds ≡ none)
  Reached-stops {s} r hash =
      let (e, o, l) =
        Stopped-cases hash (lookup hash s.fds) _ _ (stop_fd-Stopped hash s (Reached-IsOpen r)) in
      (e, l)

  Stopped-done :
      (hash : String) (a : ℕ) (o : Option ℕ) (r : Result (Unit {0})) (s : Process W)
      → o ≡ some a
      → Stopped hash o r s
      → done_at a s.objects ≡ some true
  unfolding Stopped
  Stopped-done hash a none r s e p = absurd cc
  Stopped-done hash a (some b) r s e (_, _, _, d) = cc

  -- StopFd closes the channel of the entry.
  pub stop_fd-done :
      (hash : String) (a : ℕ) (s : Process W)
      → Told (Entered hash a) s
      → done_at a (stop_fd k hash s).1.objects ≡ some true
  stop_fd-done hash a s (o, l) =
      Stopped-done hash a (lookup hash s.fds) _ _ l (stop_fd-Stopped hash s o)
