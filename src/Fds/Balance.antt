-- ===== src/Fds/Balance.antt =====
-- What a request of handleFDRequest in pkg/fuse/passfd.go does to the descriptors of the process.
use dingofs_csi.Common.{
  ℕ, zero, suc, ◌+◌, String, Bool, true, false, not, ◌&&◌, List, [], ◌∷◌, Option, none, some, ◌≡◌,
  refl, ◌==◌, arith, ◌⊎◌, inl, inr, lookup, ◌∙◌,
}
use dingofs_csi.Common.Integers.{ℤ, pos, negsuc}
use dingofs_csi.Common.Exec.{
  Result, ok, err, pure, raise, attempt, handle, ◌>>=◌, ◌>>◌, Meets, Keeps, Meets-pure, Meets-bind,
  Meets-if, Meets-weaken, Keeps-bind,
}
use dingofs_csi.Fds.Descriptors.{
  Fd, Process, Sockets, FdEvent, try_call, close, rights_of, get_fd, put_fd, is_positive, minus_one,
  note,
}
use dingofs_csi.Fds.{object_at, deref, known_object, store, entry, put_back}
use dingofs_csi.Fds.Requests.{
  hand_out, keep_or_close, take_back, ask_pod, finish_request, serve_request, handle_fd_request,
  serve_entry, sent_fds,
}
use dingofs_csi.Fds.Count.{
  owns, count, held, closes, takes, held-set_object, Holds, Holds-set_object, Balanced, On,
  Keeps-try_call, carried, close_each-Balanced, Received, rights_of-Received,
}

-- The descriptors that are lost: none, or all but the first of those in a message of the
-- connection.
pub data Lost {W C : Type 0} (k : Sockets W C) (conn : C) : List ℤ → Type 0 where
  nothing : Lost k conn []
  rest :
      (first : ℤ) (lost : List ℤ) (w : W) (msg : String) (msgs : List (Result (List ℤ)))
      → (k.recvmsg conn 1 w).0 ≡ ok (msg, ok msgs)
      → carried msgs ≡ first ∷ lost
      → Lost k conn lost

owns-not_positive : (d : ℕ) (fd : ℤ) → is_positive fd ≡ false → owns d fd ≡ 0
unfolding owns
owns-not_positive d (pos zero) e = refl
owns-not_positive d (pos (suc n)) e = absurd cc
owns-not_positive d (negsuc n) e = refl

right_of : (b c : Bool) → (b && not c) ≡ true → c ≡ false
right_of true c e = ground arith
right_of false c e = absurd cc

module _ {W C : Type 0} (k : Sockets W C) (a : ℕ) (i j : ℕ → ℕ) where
  -- A message of the connection that carries these.
  abbrev Brought : C → List ℤ → Type 0
  Brought conn fds =
      (w : W) × (msg : String) × (msgs : List (Result (List ℤ))) × ((k.recvmsg conn 1 w).0
        ≡ ok (msg, ok msgs))
      × (carried msgs ≡ fds)

  -- What was read is in transit; nothing is where there is an error.
  abbrev pub Arrived : C → Result (String × List ℤ) → Process W → Type 0
  Arrived conn (ok (msg, fds)) s = Brought conn fds × On (Balanced a i j fds) s
  Arrived conn (err e) s = On (Balanced a i j []) s

  put_fd-Balanced :
      (Q : List Fd → List FdEvent → Type 0) (conn : C) (msg : String) (fds : List ℤ)
      → Keeps (On Q) (put_fd k conn msg fds)
  unfolding put_fd
  put_fd-Balanced Q conn msg [] = Meets-pure _ _ _ (λ s p. p)
  put_fd-Balanced Q conn msg (fd ∷ fds) =
      Keeps-bind _ _ (Keeps-try_call Q _) (λ _. Keeps-try_call Q _)

  -- The message that recvmsg answers.
  Was : C → Result (String × Result (List (Result (List ℤ)))) → Process W → Type 0
  Was conn (ok (msg, ok msgs)) s =
      ((w : W) × ((k.recvmsg conn 1 w).0 ≡ ok (msg, ok msgs))) × On (Balanced a i j []) s
  Was conn r s = On (Balanced a i j []) s

  recvmsg-Was : (conn : C) → Meets (On (Balanced a i j [])) (try_call (k.recvmsg conn 1)) (Was conn)
  unfolding Was try_call
  recvmsg-Was conn = record {
    at = λ s p. was s (k.recvmsg conn 1 s.world).1 p (k.recvmsg conn 1 s.world).0 refl;
  }
    where
      was :
          (s : Process W) (w : W)
          → On (Balanced a i j []) s
          → (r : Result (String × Result (List (Result (List ℤ)))))
          → (k.recvmsg conn 1 s.world).0 ≡ r
          → Was conn r (record s { world = w })
      was s w p (ok (msg, ok msgs)) e = ((s.world, e), p)
      was s w p (ok (msg, err x)) e = p
      was s w p (err x) e = p

  rights_of-Arrived :
      (conn : C) (msg : String) (msgs : List (Result (List ℤ)))
      → ((w : W) × ((k.recvmsg conn 1 w).0 ≡ ok (msg, ok msgs)))
      → Meets
          (On (Balanced a i j []))
          (rights_of {W = W} msgs [] >>= λ fds. pure (msg, fds))
          (Arrived conn)
  rights_of-Arrived conn msg msgs (w, e) =
      Meets-bind (Received a i j (carried msgs)) _ _ (rights_of-Received a i j msgs [])
        (λ fds. Meets-pure _ (Arrived conn) (msg, fds) (λ s (le, p). ((w, msg, msgs, e, le), p)))
        (λ e s p. p)

  get_fd-Arrived : (conn : C) → Meets (On (Balanced a i j [])) (get_fd k conn 1) (Arrived conn)
  unfolding get_fd Was handle ◌>>=◌ pure
  get_fd-Arrived conn =
      Meets-bind (λ _. On (Balanced a i j [])) _ _ (Keeps-try_call (Balanced a i j []) _)
        (λ _.
          Meets-bind (Was conn) _ _ (recvmsg-Was conn) (λ (msg, parsed). by msg parsed)
            (λ e s p. p))
        (λ e s p. p)
    where
      by :
          (msg : String) (parsed : Result (List (Result (List ℤ))))
          → Meets
              (Was conn (ok (msg, parsed)))
              (handle parsed pure raise >>= λ msgs. rights_of msgs [] >>= λ fds. pure (msg, fds))
              (Arrived conn)
      by msg (ok msgs) = record { at = λ s (b, p). (rights_of-Arrived conn msg msgs b).at s p }
      by msg (err e) = record { at = λ s p. p }

  -- The object that was Dereferenced, and the balance.
  abbrev Found : Fd → List ℤ → List Fd → List FdEvent → Type 0
  Found f n objects log = (object_at a objects ≡ some f) × Balanced a i j n objects log

  Dereferenced : Result Fd → List ℤ → Process W → Type 0
  Dereferenced (ok f) n s = On (Found f n) s
  Dereferenced (err e) n s = ⊥

  deref-Dereferenced :
      (n : List ℤ) → Meets (On (Balanced a i j n)) (deref {W = W} a) (λ r. Dereferenced r n)
  unfolding deref raise pure Dereferenced
  deref-Dereferenced n = record { at = λ s p. by s (object_at a s.objects) refl p }
    where
      by :
          (s : Process W) (o : Option Fd)
          → object_at a s.objects ≡ o
          → On (Balanced a i j n) s
          → Dereferenced (known_object o s).0 n (known_object o s).1
      by s none e ((f, h), p) = absurd cc
      by s (some g) e p = (e, p)

  -- The object is replaced by one that owns so much less than is in transit.
  store-Balanced :
      (f g : Fd) (n m : List ℤ)
      → ((d : ℕ) → owns d g.fuse_fd + count d m ≡ owns d f.fuse_fd + count d n)
      → Meets (On (Found f n)) (store {W = W} a g) (λ _. On (Balanced a i j m))
  unfolding store
  store-Balanced f g n m e = record {
    at = λ s (h, (there, p)). (
      Holds-set_object a a g s.objects there,
      λ d. omega (arith, p d, e d, held-set_object d a f g s.objects h),
    );
  }

  closed-Balanced :
      (f : Fd)
      → Meets
          (On (Found f []))
          (close f.fuse_fd >> store {W = W} a (record f { fuse_fd = minus_one }))
          (λ _. On (Balanced a i j []))
  unfolding ◌>>=◌ note store closes takes owns
  closed-Balanced f = record {
    at = λ s (h, (there, p)). (
      Holds-set_object a a (record f { fuse_fd = minus_one }) s.objects there,
      λ d. omega (arith, p d, held-set_object d a f (record f { fuse_fd = minus_one }) s.objects h),
    );
  }

  hand_out-Balanced : (conn : C) → Keeps (On (Balanced a i j [])) (hand_out k conn a)
  unfolding hand_out Dereferenced
  hand_out-Balanced conn =
      Meets-bind (λ r. Dereferenced r []) _ _ (deref-Dereferenced [])
        (λ f.
          Meets-bind (λ _. On (Found f [])) _ _
            (put_fd-Balanced (Found f []) conn f.fuse_setting (sent_fds f.fuse_fd))
            (λ _. Meets-if _ _ _ _ _ (λ e. Meets-pure _ _ _ (λ s p. p.1)) (λ e. closed-Balanced f))
            (λ e s p. p.1))
        (λ e s p. absurd p)

  -- Some of these are lost: none, or all but the first.
  abbrev Left : List ℤ → Process W → Type 0
  Left fds s =
      (lost : List ℤ) × ((lost ≡ []) ⊎ ((first : ℤ) × (fds ≡ first ∷ lost)))
      × On (Balanced a i j lost) s

  take_back-Left :
      (msg : String) (fds : List ℤ)
      → Meets (On (Balanced a i j fds)) (take_back {W = W} a msg fds) (λ _. Left fds)
  unfolding take_back Dereferenced keep_or_close count
  take_back-Left msg fds =
      Meets-bind (λ r. Dereferenced r fds) _ _ (deref-Dereferenced fds) (λ f. kept f fds)
        (λ e s p. absurd p)
    where
      kept :
          (f : Fd) (fds : List ℤ)
          → Meets (On (Found f fds)) (keep_or_close {W = W} a f msg fds) (λ _. Left fds)
      kept f [] = Meets-pure _ _ _ (λ s p. ([], inl refl, p.1))
      kept f (fd ∷ fds) =
          Meets-if _ _ _ _ _
            (λ (e : (not (msg == "CLOSE") && not (is_positive f.fuse_fd)) ≡ true).
              Meets-weaken (λ s p. p) (λ r s p. (fds, inr (fd, refl), p))
                (store-Balanced f (record f { fuse_fd = fd; fuse_setting = msg }) (fd ∷ fds) fds
                  (λ d. omega (
                    arith,
                    owns-not_positive d f.fuse_fd
                        (right_of (not (msg == "CLOSE")) (is_positive f.fuse_fd) e),
                  ))))
            (λ e.
              Meets-weaken (λ s p. p.1) (λ r s p. ([], inl refl, p))
                (close_each-Balanced a i j (fd ∷ fds)))

  -- After the request.
  abbrev Served : C → Process W → Type 0
  Served conn s = (lost : List ℤ) × Lost k conn lost × On (Balanced a i j lost) s

  lost_of :
      (conn : C) (fds : List ℤ) (s : Process W) → Brought conn fds → Left fds s → Served conn s
  lost_of conn fds s b (lost, inl e, p) = ([], nothing, rw (← e) p)
  lost_of conn fds s (w, msg, msgs, e, q) (lost, inr (first, m), p) =
      (lost, rest first lost w msg msgs e (q ∙ m), p)

  serve_request-Served :
      (hash : String) (conn : C)
      → Meets (On (Balanced a i j [])) (serve_request k hash conn a) (λ _. Served conn)
  unfolding serve_request ask_pod finish_request put_back
  serve_request-Served hash conn =
      Meets-bind (Arrived conn) _ _
        (Meets-bind (λ _. On (Balanced a i j [])) _ _ (hand_out-Balanced conn)
          (λ _. get_fd-Arrived conn) (λ e s p. p))
        (λ (msg, fds). record { at = λ s (b, p). (finished msg fds b).at s p })
        (λ e s p. ([], nothing, p))
    where
      finished :
          (msg : String) (fds : List ℤ)
          → Brought conn fds
          → Meets
              (On (Balanced a i j fds))
              (take_back {W = W} a msg fds >>= λ _. put_back hash a)
              (λ _. Served conn)
      finished msg fds b =
          Meets-bind (λ _. Served conn) _ _
            (Meets-weaken (λ s p. p) (λ r s q. lost_of conn fds s b q) (take_back-Left msg fds))
            (λ _. record { at = λ s p. p }) (λ e s p. p)

-- The entry of the hash, where there is one, points to an object.
abbrev pub Points : {W : Type 0} → String → Process W → Type 0
unfolding lookup
Points hash s = (a : ℕ) → lookup hash s.fds ≡ some a → Holds a s.objects

-- If the entry of the hash, where there is one, points to an object, then a whole handleFDRequest
-- keeps the balance of every descriptor that is not 0, whatever fails and whatever the pod sends,
-- but for the descriptors that it loses: how often a descriptor is held, was closed or is lost,
-- less how often it was taken over from a message, is the same before and after; and it loses
-- none, or all but the first of the descriptors that a message of the connection, read with room
-- for one, carries
pub handle_fd_request-Balanced :
    {W C : Type 0} (k : Sockets W C) (hash : String) (conn : C) (s : Process W)
    → Points hash s
    → let t = (handle_fd_request k hash conn s).1 in
      (lost : List ℤ) × Lost k conn lost
      × ((d : ℕ)
          → held d t.objects + closes d t.log + count d lost + takes d s.log
            ≡ held d s.objects + closes d s.log + takes d t.log)
unfolding handle_fd_request entry serve_entry ◌>>=◌ attempt pure lookup count
handle_fd_request-Balanced {W} k hash conn s points = by (lookup hash s.fds) refl
  where
    by :
        (o : Option ℕ)
        → lookup hash s.fds ≡ o
        → let t = (serve_entry k hash conn o s).1 in
          (lost : List ℤ) × Lost k conn lost
          × ((d : ℕ)
              → held d t.objects + closes d t.log + count d lost + takes d s.log
                ≡ held d s.objects + closes d s.log + takes d t.log)
    by none e = ([], nothing, λ d. omega arith)
    by (some a) e =
        let (lost, l, (there, kept)) =
          (serve_request-Served k a (λ d. takes d s.log) (λ d. held d s.objects + closes d s.log)
              hash conn).at
            s (points a e, λ d. omega arith) in
        (lost, l, λ d. omega (arith, kept d))
