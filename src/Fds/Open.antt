-- ===== src/Fds/Open.antt =====
-- The table of pkg/fuse/passfd.go has only objects whose channel `done` is open, each under one hash.
use dingofs_csi.Common.{
  ℕ, zero, suc, String, Bool, true, false, List, [], ◌∷◌, ◌++◌, Option, none, some, ◌≡◌, refl,
  if◌then◌else◌, ◌==◌, length, arith, lookup, insert, delete, lookup-insert, lookup-delete, eq_iff,
  sym, ◌∙◌, eq_of_==, ne_of_==,
}
use dingofs_csi.Common.Exec.{Result, ok, err, Exec, pure, raise, ◌>>=◌, Meets, Meets-bind}
use dingofs_csi.Fds.Descriptors.{Fd, Process}
use dingofs_csi.Fds.{object_at, set_object, deref, known_object}
use dingofs_csi.Fds.Unchanged.{done_at, done_at-set_object, done_at-object_at, Told}

-- The channels of the table's objects are open, and no two hashes have the same object.
pub record IsOpen (fds : List (String × ℕ)) (objects : List Fd) : Type 0 where
  pub open_at : (hash : String) (a : ℕ) → lookup hash fds ≡ some a → done_at a objects ≡ some false
  pub distinct :
      (hash other : String) (a : ℕ)
      → lookup hash fds ≡ some a
      → lookup other fds ≡ some a
      → hash ≡ other

-- Besides, the entry of the hash is the object.
abbrev pub Entered : String → ℕ → List (String × ℕ) → List Fd → Type 0
Entered hash a fds objects = IsOpen fds objects × (lookup hash fds ≡ some a)

done_at-same :
    (a b : ℕ) (f g : Fd) (fs : List Fd)
    → object_at a fs ≡ some f
    → g.is_done ≡ f.is_done
    → done_at b (set_object a g fs) ≡ done_at b fs
done_at-same a b f g fs e d =
    ground (arith, done_at-set_object a b f g fs e, done_at-object_at a fs f e)

done_at-append :
    (a : ℕ) (f : Fd) (fs : List Fd) (b : Bool)
    → done_at a fs ≡ some b
    → done_at a (fs ++ (f ∷ [])) ≡ some b
unfolding done_at
done_at-append a f [] b e = absurd cc
done_at-append zero f (g ∷ fs) b e = e
done_at-append (suc a) f (g ∷ fs) b e = done_at-append a f fs b e

done_at-last : (f : Fd) (fs : List Fd) → done_at (length fs) (fs ++ (f ∷ [])) ≡ some f.is_done
unfolding done_at
done_at-last f [] = refl
done_at-last f (g ∷ fs) = done_at-last f fs

done_at-length : (fs : List Fd) → done_at (length fs) fs ≡ none
unfolding done_at
done_at-length [] = refl
done_at-length (f ∷ fs) = done_at-length fs

pub set_object-IsOpen :
    (a : ℕ) (f g : Fd) (fds : List (String × ℕ)) (fs : List Fd)
    → object_at a fs ≡ some f
    → g.is_done ≡ f.is_done
    → IsOpen fds fs
    → IsOpen fds (set_object a g fs)
set_object-IsOpen a f g fds fs e d o = record {
  open_at = λ hash b l. done_at-same a b f g fs e d ∙ o.open_at hash b l;
  distinct = o.distinct;
}

pub enter-IsOpen :
    (hash : String) (f : Fd) (fds : List (String × ℕ)) (fs : List Fd)
    → f.is_done ≡ false
    → IsOpen fds fs
    → IsOpen (insert hash (length fs) fds) (fs ++ (f ∷ []))
enter-IsOpen hash f fds fs d o = record { open_at = opened; distinct = apart }
  where
    opened :
        (h : String) (a : ℕ)
        → lookup h (insert hash (length fs) fds) ≡ some a
        → done_at a (fs ++ (f ∷ [])) ≡ some false
    opened h a l = by (hash == h) (sym (lookup-insert hash h (length fs) fds) ∙ l)
      where
        by :
            (b : Bool)
            → (if b then some (length fs) else lookup h fds) ≡ some a
            → done_at a (fs ++ (f ∷ [])) ≡ some false
        by true e = let last = done_at-last f fs in cc
        by false e = done_at-append a f fs false (o.open_at h a e)

    apart :
        (h other : String) (a : ℕ)
        → lookup h (insert hash (length fs) fds) ≡ some a
        → lookup other (insert hash (length fs) fds) ≡ some a
        → h ≡ other
    apart h other a l m =
        by (hash == h) (hash == other) refl refl (sym (lookup-insert hash h (length fs) fds) ∙ l)
          (sym (lookup-insert hash other (length fs) fds) ∙ m)
      where
        fresh : (h : String) → lookup h fds ≡ some a → length fs ≡ a → ⊥
        fresh h l e = let x = o.open_at h a l in let y = done_at-length fs in absurd cc

        by :
            (b c : Bool)
            → (hash == h) ≡ b
            → (hash == other) ≡ c
            → (if b then some (length fs) else lookup h fds) ≡ some a
            → (if c then some (length fs) else lookup other fds) ≡ some a
            → h ≡ other
        by true true x y l m = sym (eq_of_== hash h x) ∙ eq_of_== hash other y
        by true false x y l m = absurd (fresh other m cc)
        by false true x y l m = absurd (fresh h l cc)
        by false false x y l m = o.distinct h other a l m

-- The entry is dropped and its channel closed.
pub drop-IsOpen :
    (hash : String) (a : ℕ) (f g : Fd) (fds : List (String × ℕ)) (fs : List Fd)
    → object_at a fs ≡ some f
    → Entered hash a fds fs
    → IsOpen (delete hash fds) (set_object a g fs)
drop-IsOpen hash a f g fds fs e (o, l) = record { open_at = opened; distinct = apart }
  where
    kept : (h : String) (b : ℕ) → lookup h (delete hash fds) ≡ some b → lookup h fds ≡ some b
    kept h b m = by (hash == h) (sym (lookup-delete hash h fds) ∙ m)
      where
        by : (c : Bool) → (if c then none else lookup h fds) ≡ some b → lookup h fds ≡ some b
        by true m = absurd cc
        by false m = m

    opened :
        (h : String) (b : ℕ)
        → lookup h (delete hash fds) ≡ some b
        → done_at b (set_object a g fs) ≡ some false
    opened h b m = by (hash == h) refl (sym (lookup-delete hash h fds) ∙ m)
      where
        other : (hash == h) ≡ false → lookup h fds ≡ some b → a ≡ b → ⊥
        other x m y = ne_of_== hash h x (o.distinct hash h a l (m ∙ cc))

        by :
            (c : Bool)
            → (hash == h) ≡ c
            → (if c then none else lookup h fds) ≡ some b
            → done_at b (set_object a g fs) ≡ some false
        by true x m = absurd cc
        by false x m = ground (arith, done_at-set_object a b f g fs e, o.open_at h b m, other x m)

    apart :
        (h other : String) (b : ℕ)
        → lookup h (delete hash fds) ≡ some b
        → lookup other (delete hash fds) ≡ some b
        → h ≡ other
    apart h other b m n = o.distinct h other b (kept h b m) (kept other b n)

-- Besides, the object at the address is this one.
abbrev pub With :
    (List (String × ℕ) → List Fd → Type 0) → ℕ → Fd → List (String × ℕ) → List Fd → Type 0
With Q a f fds fs = (object_at a fs ≡ some f) × Q fds fs

lookup-again :
    (hash other : String) (a : ℕ) (fds : List (String × ℕ))
    → lookup hash fds ≡ some a
    → lookup other (insert hash a fds) ≡ lookup other fds
lookup-again hash other a fds l = ground (arith, lookup-insert hash other a fds, eq_iff hash other)

pub insert-IsOpen :
    (hash : String) (a : ℕ) (fds : List (String × ℕ)) (fs : List Fd)
    → Entered hash a fds fs
    → IsOpen (insert hash a fds) fs
insert-IsOpen hash a fds fs (o, l) = record {
  open_at = λ h b m. o.open_at h b (sym (lookup-again hash h a fds l) ∙ m);
  distinct = λ h other b m n.
      o.distinct h other b (sym (lookup-again hash h a fds l) ∙ m)
        (sym (lookup-again hash other a fds l) ∙ n);
}

pub done_at-none : (a : ℕ) (fs : List Fd) → object_at a fs ≡ none → done_at a fs ≡ none
unfolding done_at object_at
done_at-none a [] e = refl
done_at-none zero (f ∷ fs) e = absurd cc
done_at-none (suc a) (f ∷ fs) e = done_at-none a fs e

module _ {W : Type 0} (Q : List (String × ℕ) → List Fd → Type 0) where
  unfoldable pub Dereferenced : ℕ → Result Fd → Process W → Type 0
  Dereferenced a (ok f) s = Told (With Q a f) s
  Dereferenced a (err e) s = Told Q s

  pub deref-Dereferenced : (a : ℕ) → Meets (Told Q) (deref {W = W} a) (Dereferenced a)
  unfolding deref raise pure Dereferenced
  deref-Dereferenced a = record { at = λ s p. by s (object_at a s.objects) refl p }
    where
      by :
          (s : Process W) (o : Option Fd)
          → object_at a s.objects ≡ o
          → Told Q s
          → Dereferenced a (known_object o s).0 (known_object o s).1
      by s none e p = p
      by s (some f) e p = (e, p)

  -- A function of the object at an address.
  pub Meets-deref :
      {A : Type 0} (R : Process W → Type 0) (a : ℕ) (m : Fd → Exec (Process W) A)
      → ((s : Process W) → Told Q s → R s)
      → ((f : Fd) → Meets (Told (With Q a f)) (m f) (λ _. R))
      → Meets (Told Q) (deref a >>= m) (λ _. R)
  unfolding Dereferenced
  Meets-deref R a m k h = Meets-bind (Dereferenced a) _ m (deref-Dereferenced a) h (λ e s p. k s p)
