-- ===== src/Fds/Count.antt =====
-- How often a descriptor of pkg/fuse/passfd.go is held, was closed and was taken over, and what the
-- calls that exchange descriptors do to these numbers.
use dingofs_csi.Common.{
  ℕ, zero, suc, ◌+◌, List, [], ◌∷◌, ◌++◌, some, ◌≡◌, refl, if◌then◌else◌, nat_eq, arith,
}
use mathlib.Core.List.{append-nil, append_assoc}
use dingofs_csi.Common.Integers.{ℤ, pos}
use dingofs_csi.Common.Exec.{
  Result, ok, err, ◌>>=◌, Meets, Keeps, Meets-pure, Meets-raise, Meets-bind, Meets-weaken,
}
use dingofs_csi.Fds.Descriptors.{
  Fd, Process, FdEvent, closed, took, try_call, close_each, take_each, rights_of, note,
}
use dingofs_csi.Fds.{object_at, set_object}

-- Whether an integer is the open descriptor `suc d`: descriptor 0 is never handed out.
unfoldable pub owns : ℕ → ℤ → ℕ
owns d (pos (suc n)) = if nat_eq n d then 1 else 0
owns d fd = 0

unfoldable pub count : ℕ → List ℤ → ℕ
count d [] = 0
count d (fd ∷ fds) = owns d fd + count d fds

unfoldable pub held : ℕ → List Fd → ℕ
held d [] = 0
held d (f ∷ fs) = owns d f.fuse_fd + held d fs

unfoldable pub closes : ℕ → List FdEvent → ℕ
closes d [] = 0
closes d (closed fd ∷ es) = owns d fd + closes d es
closes d (took fd ∷ es) = closes d es

unfoldable pub takes : ℕ → List FdEvent → ℕ
takes d [] = 0
takes d (closed fd ∷ es) = takes d es
takes d (took fd ∷ es) = owns d fd + takes d es

count-append : (d : ℕ) (xs ys : List ℤ) → count d (xs ++ ys) ≡ count d xs + count d ys
unfolding count
count-append d [] ys = omega arith
count-append d (x ∷ xs) ys = omega (arith, count-append d xs ys)

pub held-set_object :
    (d a : ℕ) (f g : Fd) (fs : List Fd)
    → object_at a fs ≡ some f
    → held d (set_object a g fs) + owns d f.fuse_fd ≡ held d fs + owns d g.fuse_fd
unfolding held object_at set_object
held-set_object d a f g [] e = absurd cc
held-set_object d zero f g (h ∷ fs) e = by e
  where
    by :
        some h ≡ some f
        → owns d g.fuse_fd + held d fs + owns d f.fuse_fd
          ≡ owns d h.fuse_fd + held d fs + owns d g.fuse_fd
    by e = grind arith
held-set_object d (suc a) f g (h ∷ fs) e = omega (arith, held-set_object d a f g fs e)

-- An object stands at the address.
abbrev pub Holds : ℕ → List Fd → Type 0
Holds a objects = (f : Fd) × (object_at a objects ≡ some f)

pub Holds-set_object : (a b : ℕ) (g : Fd) (fs : List Fd) → Holds b fs → Holds b (set_object a g fs)
unfolding object_at set_object
Holds-set_object a b g [] (f, e) = absurd cc
Holds-set_object zero zero g (h ∷ fs) (f, e) = (g, refl)
Holds-set_object zero (suc b) g (h ∷ fs) (f, e) = (f, e)
Holds-set_object (suc a) zero g (h ∷ fs) (f, e) = (f, e)
Holds-set_object (suc a) (suc b) g (h ∷ fs) (f, e) = Holds-set_object a b g fs (f, e)

-- The object of a request is there, and what is held, closed or in transit has been taken over,
-- but for numbers that stay the same.
abbrev pub Balanced : (a : ℕ) → (i j : ℕ → ℕ) → (transit : List ℤ) → List Fd → List FdEvent → Type 0
Balanced a i j transit objects log =
    Holds a objects
    × ((d : ℕ) → held d objects + closes d log + count d transit + i d ≡ takes d log + j d)

-- The descriptors that the control messages carry.
abbrev pub carried : List (Result (List ℤ)) → List ℤ
carried [] = []
carried (ok rights ∷ msgs) = rights ++ carried msgs
carried (err e ∷ msgs) = carried msgs

module _ {W : Type 0} where
  -- A property of the objects and the log.
  abbrev pub On : (List Fd → List FdEvent → Type 0) → Process W → Type 0
  On Q s = Q s.objects s.log

  pub Keeps-try_call :
      {A : Type 0} (Q : List Fd → List FdEvent → Type 0) (f : W → Result A × W)
      → Keeps (On Q) (try_call f)
  unfolding try_call
  Keeps-try_call Q f = record { at = λ s p. p }

  pub close_each-Balanced :
      (a : ℕ) (i j : ℕ → ℕ) (fds : List ℤ)
      → Meets (On (Balanced a i j fds)) (close_each {W = W} fds) (λ _. On (Balanced a i j []))
  unfolding close_each count note closes takes ◌>>=◌
  close_each-Balanced a i j [] = Meets-pure _ _ _ (λ s p. p)
  close_each-Balanced a i j (fd ∷ fds) = record {
    at = λ s p.
        (close_each-Balanced a i j fds).at (record s { log = closed fd ∷ s.log })
          (p.0, λ d. omega (arith, p.1 d));
  }

  take_each-Balanced :
      (a : ℕ) (i j : ℕ → ℕ) (brought fds : List ℤ)
      → Meets
          (On (Balanced a i j brought))
          (take_each {W = W} fds)
          (λ r s. (r ≡ ok tt) × On (Balanced a i j (brought ++ fds)) s)
  unfolding take_each count note closes takes ◌>>=◌
  take_each-Balanced a i j brought [] =
      Meets-pure _ _ _ (λ s p. (refl, (p.0, λ d. omega (arith, p.1 d, count-append d brought []))))
  take_each-Balanced a i j brought (fd ∷ fds) = record {
    at = λ s p.
        let (e, q) =
          (take_each-Balanced a i j (brought ++ fd ∷ []) fds).at
            (record s { log = took fd ∷ s.log })
            (p.0, λ d. omega (arith, p.1 d, count-append d brought (fd ∷ []))) in
        (
          e,
          (
            q.0,
            λ d. omega (
              arith,
              q.1 d,
              count-append d (brought ++ fd ∷ []) fds,
              count-append d brought (fd ∷ []),
              count-append d brought (fd ∷ fds),
            ),
          ),
        );
  }

  -- After a message has been read: what came is in transit, and is nothing where there is an error.
  abbrev pub Received : (a : ℕ) → (i j : ℕ → ℕ) → List ℤ → Result (List ℤ) → Process W → Type 0
  Received a i j all (ok fds) s = (all ≡ fds) × On (Balanced a i j fds) s
  Received a i j all (err e) s = On (Balanced a i j []) s

  pub rights_of-Received :
      (a : ℕ) (i j : ℕ → ℕ) (msgs : List (Result (List ℤ))) (fds : List ℤ)
      → Meets
          (On (Balanced a i j fds))
          (rights_of {W = W} msgs fds)
          (Received a i j (fds ++ carried msgs))
  unfolding rights_of
  rights_of-Received a i j [] fds = Meets-pure _ _ fds (λ s p. (append-nil fds, p))
  rights_of-Received a i j (ok rights ∷ msgs) fds =
      Meets-bind (λ r s. (r ≡ ok tt) × On (Balanced a i j (fds ++ rights)) s) _ _
        (take_each-Balanced a i j fds rights)
        (λ _.
          Meets-weaken (λ s p. p.1) (λ r s q. rw (← append_assoc fds rights (carried msgs)) q)
            (rights_of-Received a i j msgs (fds ++ rights)))
        (λ e s p. let (q, _) = p in absurd cc)
  rights_of-Received a i j (err e ∷ msgs) fds =
      Meets-bind (λ _. On (Balanced a i j [])) _ _ (close_each-Balanced a i j fds)
        (λ _. Meets-raise _ _ e (λ s p. p)) (λ e s p. p)
