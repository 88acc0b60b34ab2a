-- ===== src/Fds/Interrupted.antt =====
-- A request of handleFDRequest in pkg/fuse/passfd.go during which StopFd runs, between the two
-- parts under the mutex of the object.
use dingofs_csi.Common.{
  ℕ, zero, suc, String, Bool, true, false, not, ◌&&◌, List, [], ◌∷◌, Option, none, some, ◌≡◌, refl,
  if◌then◌else◌, arith, lookup, lookup-insert, ◌∙◌, ap, sym, ==_refl, ◌==◌,
}
use dingofs_csi.Common.Integers.{ℤ}
use dingofs_csi.Common.Exec.{
  Result, ok, err, panicked, Exec, pure, raise, attempt, ◌>>=◌, Meets, Meets-pure, Meets-bind,
  Meets-weaken, Meets-if, continue,
}
use dingofs_csi.Fds.Descriptors.{Fd, Process, Sockets, close_each, note, is_positive}
use dingofs_csi.Fds.{
  object_at, deref, known_object, store, entry, put_back, close_done, stop_found, stop_fd, stop_by,
}
use dingofs_csi.Fds.Requests.{
  ask_pod, finish_request, take_back, keep_or_close, serve_request, serve_entry, handle_fd_request,
}
use dingofs_csi.Fds.Unchanged.{done_at, done_at-set_object, done_at-object_at, Told}
use dingofs_csi.Fds.Calls.{ask_pod-Entered}
use dingofs_csi.Fds.Stopping.{Reached, Reached-IsOpen, stop_fd-done}

-- The channel of the object is closed.
abbrev Ended : ℕ → List (String × ℕ) → List Fd → Type 0
Ended a fds objects = done_at a objects ≡ some true

done_at-found :
    (a : ℕ) (fs : List Fd) (b : Bool)
    → done_at a fs ≡ some b
    → (f : Fd) × (object_at a fs ≡ some f) × (f.is_done ≡ b)
unfolding done_at object_at
done_at-found a [] b e = absurd cc
done_at-found zero (f ∷ fs) b e = (f, refl, cc)
done_at-found (suc a) (f ∷ fs) b e = done_at-found a fs b e

module _ {W : Type 0} (a : ℕ) where
  -- It returns without an error and the channel is closed then.
  abbrev EndsWell : Result (Unit {0}) → Process W → Type 0
  EndsWell r s = (r ≡ ok tt) × Told (Ended a) s

  close_each-EndsWell : (fds : List ℤ) → Meets (Told (Ended a)) (close_each fds) EndsWell
  unfolding close_each note
  close_each-EndsWell [] = Meets-pure _ _ tt (λ s p. (refl, p))
  close_each-EndsWell (fd ∷ fds) =
      Meets-bind EndsWell _ _ (record { at = λ s p. (refl, p) })
        (λ _. Meets-weaken (λ s p. p.1) (λ r s p. p) (close_each-EndsWell fds))
        (λ e s p. let q = p.0 in absurd cc)

  -- The object itself.
  EndedAs : Fd → Process W → Type 0
  EndedAs f s = (object_at a s.objects ≡ some f) × (f.is_done ≡ true)

  store-EndsWell :
      (f g : Fd) → g.is_done ≡ f.is_done → Meets (EndedAs f) (store {W = W} a g) EndsWell
  unfolding store EndedAs
  store-EndsWell f g d = record {
    at = λ s (e, t). (refl, ground (arith, done_at-set_object a a f g s.objects e));
  }

  keep_or_close-EndsWell :
      (f : Fd) (msg : String) (fds : List ℤ)
      → Meets (EndedAs f) (keep_or_close {W = W} a f msg fds) EndsWell
  unfolding keep_or_close EndedAs
  keep_or_close-EndsWell f msg [] =
      Meets-pure _ _ tt (λ s (e, t). (refl, done_at-object_at a s.objects f e ∙ ap some t))
  keep_or_close-EndsWell f msg (fd ∷ fds) =
      Meets-if _ _ (not (msg == "CLOSE") && not (is_positive f.fuse_fd)) _ _
        (λ e. store-EndsWell f (record f { fuse_fd = fd; fuse_setting = msg }) refl)
        (λ e.
          Meets-weaken (λ s (e, t). done_at-object_at a s.objects f e ∙ ap some t) (λ r s p. p)
            (close_each-EndsWell (fd ∷ fds)))

  take_back-EndsWell :
      (msg : String) (fds : List ℤ) → Meets (Told (Ended a)) (take_back {W = W} a msg fds) EndsWell
  unfolding take_back deref ◌>>=◌ raise pure EndedAs
  take_back-EndsWell msg fds = record {
    at = λ s p.
        let (f, e, d) = done_at-found a s.objects true p in by s f d (object_at a s.objects) e e;
  }
    where
      by :
          (s : Process W) (f : Fd)
          → f.is_done ≡ true
          → (o : Option Fd) → o ≡ some f
          → object_at a s.objects ≡ some f
          → EndsWell
              ((known_object o >>= λ g. keep_or_close a g msg fds) s).0
              ((known_object o >>= λ g. keep_or_close a g msg fds) s).1
      by s f d none e q = absurd cc
      by s f d (some g) e q =
          let same : f ≡ g = cc in
          (keep_or_close-EndsWell g msg fds).at s
            (q ∙ ap some same, ap (λ x. x.is_done) (sym same) ∙ d)

module _ {W C : Type 0} (k : Sockets W C) where
  -- The ended object is in the table again.
  finish_request-Ended :
      (hash : String) (a : ℕ) (answer : String × List ℤ)
      → Meets
          (Told (Ended a))
          (finish_request k hash a answer)
          (λ _ s. (lookup hash s.fds ≡ some a) × Told (Ended a) s)
  unfolding finish_request put_back
  finish_request-Ended hash a (msg, fds) =
      Meets-bind (EndsWell a) _ _ (take_back-EndsWell a msg fds)
        (λ _. record {
          at = λ s p. (lookup-insert hash hash a s.fds ∙ rw (==_refl hash) refl, p.1);
        })
        (λ e s p. let q = p.0 in absurd cc)

  close_done-panics :
      (a : ℕ) (s : Process W) → done_at a s.objects ≡ some true → (close_done a s).0 ≡ err panicked
  unfolding close_done deref ◌>>=◌ raise pure
  close_done-panics a s d = by (object_at a s.objects) refl
    where
      by :
          (o : Option Fd)
          → object_at a s.objects ≡ o
          → ((known_object o >>= λ f.
                if f.is_done then raise panicked else store a (record f { is_done = true }))
              s).0
            ≡ err panicked
      by none e = refl
      by (some f) e = by_flag f.is_done (let x = done_at-object_at a s.objects f e in cc)
        where
          by_flag :
              (b : Bool)
              → b ≡ true
              → ((if b then raise panicked else store a (record f { is_done = true })) s).0
                ≡ err panicked
          by_flag true q = refl
          by_flag false q = absurd cc

  stop_by-panics :
      (hash path : String) (a : ℕ) (s : Process W)
      → (close_done a s).0 ≡ err panicked
      → (o : Option ℕ) → o ≡ some a
      → (stop_by k hash path o s).0 ≡ err panicked
  unfolding stop_by stop_found ◌>>=◌
  stop_by-panics hash path a s p none e = absurd cc
  stop_by-panics hash path a s p (some b) e =
      let same : b ≡ a = cc in
      fails (close_done b s).0 _ (close_done b s).1 (ap (λ x. (close_done x s).0) same ∙ p)
    where
      fails :
          (r : Result (Unit {0})) (f : Unit {0} → Exec (Process W) (Unit {0})) (t : Process W)
          → r ≡ err panicked
          → (continue r f t).0 ≡ err panicked
      fails (ok tt) f t q = absurd cc
      fails (err e) f t q = cc

  -- A request that nothing comes between is its two parts.
  handle_fd_request-parts :
      (hash : String) (conn : C) (s : Process W) (a : ℕ) (answer : String × List ℤ)
      → lookup hash s.fds ≡ some a
      → (ask_pod k conn a s).0 ≡ ok answer
      → (handle_fd_request k hash conn s).1
        ≡ (finish_request k hash a answer (ask_pod k conn a s).1).1
  unfolding handle_fd_request serve_entry serve_request entry ◌>>=◌ attempt pure
  handle_fd_request-parts hash conn s a answer l e =
      ap (λ o. (serve_entry k hash conn o s).1) l
      ∙ ap (λ r. (continue r (finish_request k hash a) (ask_pod k conn a s).1).1) e

  -- In every state that whole calls reach, where a hash has an entry: if handleFDRequest has
  -- handed its descriptor out and gets an answer from the pod, whatever it is, then going on from
  -- there is all that it still does, and where StopFd of the hash runs before it goes on, the
  -- next StopFd of the hash after it panics
  pub stop_fd-interrupted :
      {s : Process W}
      → Reached k s
      → (hash : String) (conn : C) (a : ℕ) (answer : String × List ℤ) → lookup hash s.fds ≡ some a
      → (ask_pod k conn a s).0 ≡ ok answer
      → let t = (ask_pod k conn a s).1 in
        let u = (stop_fd k hash t).1 in
        let v = (finish_request k hash a answer u).1 in
        ((handle_fd_request k hash conn s).1 ≡ (finish_request k hash a answer t).1)
        × ((stop_fd k hash v).0 ≡ err panicked)
  unfolding stop_fd entry ◌>>=◌
  stop_fd-interrupted {s} r hash conn a answer l e =
      let t : Process W = (ask_pod k conn a s).1 in
      let entered = (ask_pod-Entered k hash conn a).at s (Reached-IsOpen k r, l) in
      let u : Process W = (stop_fd k hash t).1 in
      let ended = stop_fd-done k hash a t entered in
      let v : Process W = (finish_request k hash a answer u).1 in
      let (again, still) = (finish_request-Ended hash a answer).at u ended in
      (
        handle_fd_request-parts hash conn s a answer l e,
        stop_by-panics hash (k.join v.base_path hash) a v (close_done-panics a v still)
            (lookup hash v.fds) again,
      )
