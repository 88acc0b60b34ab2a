-- ===== src/Common/Exec.antt =====
-- Go functions that return `(value, error)` and act on the world: a state and error monad. What
-- was done before an error stays done.
use Prim.Native.Nat.{ℕ}
use Prim.Native.String.{String}
use mathlib.Core.Path.{◌≡◌, refl}
use mathlib.Core.Bool.{Bool, true, false}
use dingofs_csi.Common.Tests.{if◌then◌else◌}

-- The errors that the code tells apart, by `IsNotFound`, `IsTimeout`, `IsConflict` or by what a
-- command printed; `coded` is an error with the number of a gRPC code. `panicked` stands for a Go panic, and `running` for a loop that has not ended
-- when the fuel of its model runs out.
pub data Error : Type 0 where
  not_found timeout conflict already_exists other : Error
  output : String → Error
  coded : (code : ℕ) → Error
  panicked running : Error

pub data Result {ℓ} (A : Type ℓ) : Type ℓ where
  ok : A → Result A
  err : Error → Result A

abbrev pub Exec : Type 0 → Type 0 → Type 0
Exec S A = S → Result A × S

module _ {S A : Type 0} where
  unfoldable pub pure : A → Exec S A
  pure a s = (ok a, s)

  unfoldable pub raise : Error → Exec S A
  raise e s = (err e, s)

  -- `r, err := m()` where the caller looks at `err` itself.
  unfoldable pub attempt : Exec S A → Exec S (Result A)
  attempt m s = let (r, s') = m s in (ok r, s')

module _ {S A B : Type 0} where
  abbrev pub continue : Result A → (A → Exec S B) → Exec S B
  continue (ok a) f s = f a s
  continue (err e) f s = (err e, s)

  infixl 10 ◌>>=◌ ◌>>◌
  unfoldable pub ◌>>=◌ : Exec S A → (A → Exec S B) → Exec S B
  unfolding pure raise attempt
  ◌>>=◌ m f s = let (r, s') = m s in continue r f s'

  abbrev pub ◌>>◌ : Exec S A → Exec S B → Exec S B
  m >> n = m >>= λ _. n

  -- `if err != nil { … } else { … }`
  unfoldable pub handle : Result A → (A → Exec S B) → (Error → Exec S B) → Exec S B
  handle (ok a) f g = f a
  handle (err e) f g = g e

-- `fmt.Errorf("…: %v", err)`: the error is no longer told apart.
abbrev pub forget : {A : Type 0} → Result A → Result A
forget (ok a) = ok a
forget (err e) = err other

module _ {S A : Type 0} where
  unfoldable pub wrap : Exec S A → Exec S A
  wrap m s = let (r, s') = m s in (forget r, s')

-- `status.Errorf(code, …)` for whatever error came.
abbrev pub recode : {A : Type 0} → ℕ → Result A → Result A
recode code (ok a) = ok a
recode code (err panicked) = err panicked
recode code (err running) = err running
recode code (err e) = err (coded code)

module _ {S A : Type 0} where
  unfoldable pub coded_as : ℕ → Exec S A → Exec S A
  coded_as code m s = let (r, s') = m s in (recode code r, s')

-- A postcondition `Q` of `m` from the precondition `P`, for the value or error and the state.
pub record Meets {S A : Type 0} (P : S → Type 0) (m : Exec S A) (Q : Result A → S → Type 0)
    : Type 0 where
  pub at : (s : S) → P s → Q (m s).0 (m s).1

-- An invariant, kept whether `m` returns or fails.
abbrev pub Keeps : {S A : Type 0} → (S → Type 0) → Exec S A → Type 0
Keeps P m = Meets P m (λ _ s. P s)

module _ {S A : Type 0} where
  pub Meets-pure :
      (P : S → Type 0) (Q : Result A → S → Type 0) (a : A)
      → ((s : S) → P s → Q (ok a) s)
      → Meets P (pure a) Q
  unfolding pure
  Meets-pure P Q a h = record { at = h }

  pub Meets-raise :
      (P : S → Type 0) (Q : Result A → S → Type 0) (e : Error)
      → ((s : S) → P s → Q (err e) s)
      → Meets P (raise {A = A} e) Q
  unfolding raise
  Meets-raise P Q e h = record { at = h }

  pub Meets-if :
      (P : S → Type 0) (Q : Result A → S → Type 0) (b : Bool) (m n : Exec S A)
      → (b ≡ true → Meets P m Q)
      → (b ≡ false → Meets P n Q)
      → Meets P (if b then m else n) Q
  Meets-if P Q true m n h k = h refl
  Meets-if P Q false m n h k = k refl

  pub Meets-weaken :
      {P P' : S → Type 0} {Q Q' : Result A → S → Type 0} {m : Exec S A}
      → ((s : S) → P s → P' s)
      → ((r : Result A) (s : S) → Q' r s → Q r s)
      → Meets P' m Q'
      → Meets P m Q
  Meets-weaken {m} f g h = record { at = λ s p. g (m s).0 (m s).1 (h.at s (f s p)) }

  pub Meets-attempt :
      {P : S → Type 0} {Q : Result A → S → Type 0} (m : Exec S A)
      → Meets P m Q
      → Meets P (attempt m) (λ r s. (a : Result A) × (r ≡ ok a) × Q a s)
  unfolding attempt
  Meets-attempt m h = record { at = λ s p. ((m s).0, refl, h.at s p) }

module _ {S A B : Type 0} where
  continue-Meets :
      (R : Result A → S → Type 0) (Q : Result B → S → Type 0) (f : A → Exec S B)
      → ((a : A) → Meets (R (ok a)) (f a) Q)
      → ((e : Error) (s : S) → R (err e) s → Q (err e) s)
      → (r : Result A) (s : S) → R r s
      → Q (continue r f s).0 (continue r f s).1
  continue-Meets R Q f h k (ok a) s p = (h a).at s p
  continue-Meets R Q f h k (err e) s p = k e s p

  pub Meets-bind :
      {P : S → Type 0} (R : Result A → S → Type 0) {Q : Result B → S → Type 0} (m : Exec S A)
      (f : A → Exec S B)
      → Meets P m R
      → ((a : A) → Meets (R (ok a)) (f a) Q)
      → ((e : Error) (s : S) → R (err e) s → Q (err e) s)
      → Meets P (m >>= f) Q
  unfolding ◌>>=◌
  Meets-bind R {Q} m f h k l = record {
    at = λ s p. continue-Meets R Q f k l (m s).0 (m s).1 (h.at s p);
  }

  pub Keeps-bind :
      {P : S → Type 0} (m : Exec S A) (f : A → Exec S B)
      → Keeps P m
      → ((a : A) → Keeps P (f a))
      → Keeps P (m >>= f)
  Keeps-bind {P} m f h k = Meets-bind (λ _ s. P s) m f h k (λ e s p. p)

  pub Meets-handle :
      (P : S → Type 0) (Q : Result B → S → Type 0) (r : Result A) (f : A → Exec S B)
      (g : Error → Exec S B)
      → ((a : A) → r ≡ ok a → Meets P (f a) Q)
      → ((e : Error) → r ≡ err e → Meets P (g e) Q)
      → Meets P (handle r f g) Q
  unfolding handle
  Meets-handle P Q (ok a) f g h k = h a refl
  Meets-handle P Q (err e) f g h k = k e refl

  -- The call's answer is looked at, whatever it is.
  pub Meets-answer :
      {P : S → Type 0} {Q : Result B → S → Type 0} (R : Result A → S → Type 0) (m : Exec S A)
      (f : Result A → Exec S B)
      → Meets P m R
      → ((a : Result A) → Meets (R a) (f a) Q)
      → Meets P (attempt m >>= f) Q
  unfolding ◌>>=◌ attempt
  Meets-answer R m f h k = record { at = λ s p. (k (m s).0).at (m s).1 (h.at s p) }

module _ {S A : Type 0} where
  -- What holds of the state does not depend on how the error is told.
  pub Meets-wrap :
      {P Q : S → Type 0} (m : Exec S A) → Meets P m (λ _ s. Q s) → Meets P (wrap m) (λ _ s. Q s)
  unfolding wrap
  Meets-wrap m k = record { at = λ s p. k.at s p }

  pub Meets-coded_as :
      {P Q : S → Type 0} (code : ℕ) (m : Exec S A)
      → Meets P m (λ _ s. Q s)
      → Meets P (coded_as code m) (λ _ s. Q s)
  unfolding coded_as
  Meets-coded_as code m k = record { at = λ s p. k.at s p }
