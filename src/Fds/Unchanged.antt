-- ===== src/Fds/Unchanged.antt =====
-- The calls of pkg/fuse/passfd.go that leave the table of descriptors and the channels `done` as
-- they are.
use dingofs_csi.Common.{
  ℕ, zero, suc, String, Bool, not, List, [], ◌∷◌, Option, none, some, ◌≡◌, refl, if◌then◌else◌,
  nat_eq, arith,
}
use dingofs_csi.Common.Integers.{ℤ}
use dingofs_csi.Common.Exec.{
  Result, ok, err, Error, Exec, pure, raise, attempt, handle, ◌>>=◌, Keeps, Meets-pure, Meets-raise,
  Meets-if, Keeps-bind, Meets-handle, Meets-answer,
}
use dingofs_csi.Fds.Descriptors.{
  Fd, Process, Sockets, FdEvent, closed, call, try_call, close_each, take_each, rights_of, get_fd,
  put_fd, note, do_with_timeout, after_receipt, exchange, get_fuse_fd,
}
use dingofs_csi.Fds.{object_at, set_object}

-- Whether the channel of the object is closed.
unfoldable pub done_at : ℕ → List Fd → Option Bool
done_at a [] = none
done_at zero (f ∷ fs) = some f.is_done
done_at (suc a) (f ∷ fs) = done_at a fs

pub done_at-set_object :
    (a b : ℕ) (f g : Fd) (fs : List Fd)
    → object_at a fs ≡ some f
    → done_at b (set_object a g fs) ≡ (if nat_eq a b then some g.is_done else done_at b fs)
unfolding done_at object_at set_object
done_at-set_object a b f g [] e = absurd cc
done_at-set_object zero zero f g (h ∷ fs) e = refl
done_at-set_object zero (suc b) f g (h ∷ fs) e = ground arith
done_at-set_object (suc a) zero f g (h ∷ fs) e = ground arith
done_at-set_object (suc a) (suc b) f g (h ∷ fs) e = ground (arith, done_at-set_object a b f g fs e)

pub done_at-object_at :
    (a : ℕ) (fs : List Fd) (f : Fd) → object_at a fs ≡ some f → done_at a fs ≡ some f.is_done
unfolding done_at object_at
done_at-object_at a [] f e = absurd cc
done_at-object_at zero (h ∷ fs) f e = cc
done_at-object_at (suc a) (h ∷ fs) f e = done_at-object_at a fs f e

-- A property of the table and the objects.
abbrev pub Told : {W : Type 0} → (List (String × ℕ) → List Fd → Type 0) → Process W → Type 0
Told Q s = Q s.fds s.objects

module _ {W : Type 0} (Q : List (String × ℕ) → List Fd → Type 0) where
  pub Keeps-try : {A : Type 0} (f : W → Result A × W) → Keeps (Told {W = W} Q) (try_call f)
  unfolding try_call
  Keeps-try f = record { at = λ s p. p }

  pub Keeps-call : {A : Type 0} (f : W → A × W) → Keeps (Told {W = W} Q) (call f)
  unfolding call
  Keeps-call f = record { at = λ s p. p }

  pub Keeps-note : (e : FdEvent) → Keeps (Told {W = W} Q) (note e)
  unfolding note
  Keeps-note e = record { at = λ s p. p }

  pub Keeps-pure : {A : Type 0} (a : A) → Keeps (Told {W = W} Q) (pure a)
  Keeps-pure a = Meets-pure _ _ a (λ s p. p)

  pub Keeps-raise : {A : Type 0} (e : Error) → Keeps (Told {W = W} Q) (raise {A = A} e)
  Keeps-raise e = Meets-raise _ _ e (λ s p. p)

  pub Keeps-answer :
      {A B : Type 0} (m : Exec (Process W) A) (f : Result A → Exec (Process W) B)
      → Keeps (Told {W = W} Q) m
      → ((a : Result A) → Keeps (Told {W = W} Q) (f a))
      → Keeps (Told {W = W} Q) (attempt m >>= f)
  Keeps-answer m f h k = Meets-answer (λ _. Told Q) m f h k

  pub Keeps-handle :
      {A B : Type 0} (r : Result A) (f : A → Exec (Process W) B) (g : Error → Exec (Process W) B)
      → ((a : A) → Keeps (Told {W = W} Q) (f a))
      → ((e : Error) → Keeps (Told {W = W} Q) (g e))
      → Keeps (Told {W = W} Q) (handle r f g)
  Keeps-handle r f g h k = Meets-handle _ _ r f g (λ a _. h a) (λ e _. k e)

  pub Keeps-close_each : (fds : List ℤ) → Keeps (Told {W = W} Q) (close_each fds)
  unfolding close_each
  Keeps-close_each [] = Keeps-pure tt
  Keeps-close_each (fd ∷ fds) = Keeps-bind _ _ (Keeps-note (closed fd)) (λ _. Keeps-close_each fds)

  Keeps-take_each : (fds : List ℤ) → Keeps (Told {W = W} Q) (take_each fds)
  unfolding take_each
  Keeps-take_each [] = Keeps-pure tt
  Keeps-take_each (fd ∷ fds) = Keeps-bind _ _ (Keeps-note _) (λ _. Keeps-take_each fds)

  pub Keeps-rights_of :
      (msgs : List (Result (List ℤ))) (fds : List ℤ) → Keeps (Told {W = W} Q) (rights_of msgs fds)
  unfolding rights_of
  Keeps-rights_of [] fds = Keeps-pure fds
  Keeps-rights_of (ok rights ∷ msgs) fds =
      Keeps-bind _ _ (Keeps-take_each rights) (λ _. Keeps-rights_of msgs _)
  Keeps-rights_of (err e ∷ msgs) fds = Keeps-bind _ _ (Keeps-close_each fds) (λ _. Keeps-raise e)

module _ {W C : Type 0} (k : Sockets W C) (Q : List (String × ℕ) → List Fd → Type 0) where
  pub Keeps-do_with_timeout :
      {A : Type 0} (m : Exec (Process W) A)
      → Keeps (Told {W = W} Q) m
      → Keeps (Told {W = W} Q) (do_with_timeout k m)
  unfolding do_with_timeout
  Keeps-do_with_timeout m h = Keeps-answer Q m _ h λ r.
      Keeps-bind _ _ (Keeps-call Q k.timed_out) λ late.
        Meets-if _ _ late _ _ (λ _. Keeps-raise Q _)
          (λ _. Keeps-handle Q r _ _ (λ a. Keeps-pure Q a) (λ e. Keeps-raise Q e))

  pub Keeps-get_fd : (via : C) (num : ℕ) → Keeps (Told {W = W} Q) (get_fd k via num)
  unfolding get_fd
  Keeps-get_fd via zero = Keeps-pure Q _
  Keeps-get_fd via (suc num) = Keeps-bind _ _ (Keeps-try Q _) λ _.
      Keeps-bind _ _ (Keeps-try Q _) λ (msg, parsed).
        Keeps-bind _ _ (Keeps-handle Q parsed _ _ (Keeps-pure Q) (Keeps-raise Q))
          λ msgs. Keeps-bind _ _ (Keeps-rights_of Q msgs []) (λ fds. Keeps-pure Q (msg, fds))

  pub Keeps-put_fd :
      (via : C) (msg : String) (fds : List ℤ) → Keeps (Told {W = W} Q) (put_fd k via msg fds)
  unfolding put_fd
  Keeps-put_fd via msg [] = Keeps-pure Q tt
  Keeps-put_fd via msg (fd ∷ fds) = Keeps-bind _ _ (Keeps-try Q _) (λ _. Keeps-try Q _)

  Keeps-after_receipt :
      (conn : C) (msg : String) (fds : List ℤ)
      → Keeps (Told {W = W} Q) (after_receipt k conn msg fds)
  unfolding after_receipt
  Keeps-after_receipt conn msg [] = Keeps-raise Q _
  Keeps-after_receipt conn msg (fd ∷ []) = Keeps-bind _ _ (Keeps-note Q _) (λ _. Keeps-pure Q _)
  Keeps-after_receipt conn msg (fd ∷ fuse_fd ∷ fds) =
      Keeps-bind _ _ (Keeps-note Q _)
        (λ _. Keeps-answer Q _ _ (Keeps-put_fd conn msg _) (λ _. Keeps-pure Q _))

  pub Keeps-get_fuse_fd : (path : String) → Keeps (Told {W = W} Q) (get_fuse_fd k path)
  unfolding get_fuse_fd exchange
  Keeps-get_fuse_fd path =
      Keeps-answer Q _ _
        (Keeps-do_with_timeout _ (
          Keeps-bind _ _ (Keeps-call Q _)
            (λ (exists, e). Keeps-handle Q e _ _ (λ _. Keeps-pure Q exists) (Keeps-raise Q))))
        λ r.
          Keeps-handle Q r _ _
            (λ exists.
              Meets-if _ _ (not exists) _ _ (λ _. Keeps-pure Q _)
                (λ _.
                  Keeps-answer Q _ _ (Keeps-try Q _)
                    (λ d. Keeps-handle Q d _ _ exchanged (λ _. Keeps-pure Q _))))
            (λ _. Keeps-pure Q _)
    where
      exchanged : (conn : C) → Keeps (Told {W = W} Q) (exchange k conn)
      exchanged conn = Keeps-answer Q _ _ (Keeps-get_fd conn 2) (λ r.
          Keeps-handle Q r _ _ (λ (msg, fds). Keeps-after_receipt conn msg fds)
            (λ _. Keeps-pure Q _))
