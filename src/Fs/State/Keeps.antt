-- ===== src/Fs/State/Keeps.antt =====
-- What an action keeps of the state: one rule for each way to build an action. A panic stops the
-- kernel, so that nothing is asked of the state behind it.
use riptide.Fs.State.{match_option}
use riptide.Prelude.{ℕ, ◌+◌, ◌≡◌, refl, ap, Bool, true, false, Option, none, some, if◌then◌else◌}
use riptide.Fs.Types.{IoError}
use riptide.Fs.State.{
  Act, Outcome, continue, ok, err, panic, pure, raise, panics, gets, modify, ◌>>=◌, ok_or, expect,
  assert, add_usize,
}

module _ {S A B : Type 0} where
  -- A step that returns, and what follows it.
  pub bind-ok :
      (m : Act S A) (f : A → Act S B) (s : S) {a : A} {t : S}
      → m s ≡ (ok a, t)
      → (m >>= f) s ≡ f a t
  unfolding ◌>>=◌
  bind-ok m f s e = ap (λ (r : Outcome A × S). continue r.0 f r.1) e

module _ {S A : Type 0} where
  pub pure_lem : (a : A) (s : S) → pure a s ≡ (ok a, s)
  unfolding ◌>>=◌
  pure_lem a s = refl

  pub gets_lem : (f : S → A) (s : S) → gets f s ≡ (ok (f s), s)
  unfolding ◌>>=◌
  gets_lem f s = refl

pub modify_lem : {S : Type 0} (f : S → S) (s : S) → modify f s ≡ (ok tt, f s)
unfolding ◌>>=◌
modify_lem f s = refl

-- After an `ok` the postcondition holds, after an `err` the invariant.
abbrev pub Holds : {S A : Type 0} → (S → Type 0) → (A → S → Type 0) → Outcome A × S → Type 0
Holds P Q (ok a, s) = Q a s
Holds P Q (err e, s) = P s
Holds P Q (panic, s) = Unit

-- From a state with `R`, the action ends with `Q`, or fails with `P`, or panics.
pub record Triple {S A : Type 0} (R P : S → Type 0) (m : Act S A) (Q : A → S → Type 0)
    : Type 0 where
  pub at : (s : S) → R s → Holds P Q (m s)

abbrev pub Keeps : {S A : Type 0} → (S → Type 0) → Act S A → Type 0
Keeps P m = Triple P P m (λ _. P)

module _ {S A B : Type 0} {R P : S → Type 0} {Q : A → S → Type 0} {T : B → S → Type 0} where
  pub Triple-bind :
      (m : Act S A) (f : A → Act S B)
      → Triple R P m Q
      → ((a : A) → Triple (Q a) P (f a) T)
      → Triple R P (m >>= f) T
  unfolding ◌>>=◌
  Triple-bind m f hm hf = record { at = λ s h. go (m s) (hm.at s h) }
    where
      go : (r : Outcome A × S) → Holds P Q r → Holds P T (((λ (s : S). r) >>= f) r.1)
      go (ok a, s) h = (hf a).at s h
      go (err e, s) h = h
      go (panic, s) h = tt

module _ {S A : Type 0} {R P : S → Type 0} {Q : A → S → Type 0} where
  pub Triple-pure : (a : A) → ((s : S) → R s → Q a s) → Triple R P (pure a) Q
  unfolding ◌>>=◌
  Triple-pure a h = record { at = h }

  pub Triple-raise : (e : IoError) → ((s : S) → R s → P s) → Triple R P (raise e) Q
  unfolding ◌>>=◌
  Triple-raise e h = record { at = h }

  pub Triple-panics : Triple R P (panics {A = A}) Q
  unfolding ◌>>=◌
  Triple-panics = record { at = λ s h. tt }

  pub Triple-if :
      (b : Bool) (m n : Act S A)
      → Triple R P m Q
      → Triple R P n Q
      → Triple R P (if b then m else n) Q
  Triple-if true m n tm tn = tm
  Triple-if false m n tm tn = tn

module _ {S A : Type 0} {P : S → Type 0} where
  pub Keeps-pure : (a : A) → Keeps P (pure a)
  unfolding ◌>>=◌
  Keeps-pure a = record { at = λ s h. h }

  pub Keeps-raise : (e : IoError) → Keeps P (raise {A = A} e)
  unfolding ◌>>=◌
  Keeps-raise e = record { at = λ s h. h }

  pub Keeps-panics : Keeps P (panics {A = A})
  unfolding ◌>>=◌
  Keeps-panics = record { at = λ s h. tt }

  pub Keeps-gets : (f : S → A) → Keeps P (gets f)
  unfolding ◌>>=◌
  Keeps-gets f = record { at = λ s h. h }

  pub Keeps-if : (b : Bool) (m n : Act S A) → Keeps P m → Keeps P n → Keeps P (if b then m else n)
  Keeps-if true m n km kn = km
  Keeps-if false m n km kn = kn

module _ {S A B : Type 0} {P : S → Type 0} where
  pub Keeps-option :
      (o : Option A) (m : Act S B) (f : A → Act S B)
      → Keeps P m
      → ((a : A) → Keeps P (f a))
      → Keeps P (match_option o m f)
  Keeps-option none m f km kf = km
  Keeps-option (some a) m f km kf = kf a

module _ {S A : Type 0} {P : S → Type 0} where
  pub Keeps-ok_or : (o : Option A) (e : IoError) → Keeps P (ok_or o e)
  Keeps-ok_or none e = Keeps-raise e
  Keeps-ok_or (some a) e = Keeps-pure a

  pub Keeps-expect : (o : Option A) → Keeps P (expect o)
  Keeps-expect none = Keeps-panics
  Keeps-expect (some a) = Keeps-pure a

module _ {S : Type 0} {P : S → Type 0} where
  pub Keeps-assert : (b : Bool) → Keeps P (assert b)
  Keeps-assert true = Keeps-pure tt
  Keeps-assert false = Keeps-panics

  pub Keeps-add_usize : (a b : ℕ) → Keeps P (add_usize a b)
  Keeps-add_usize a b = Keeps-if _ (pure (a + b)) panics (Keeps-pure (a + b)) Keeps-panics

  pub Keeps-modify : (f : S → S) → ((s : S) → P s → P (f s)) → Keeps P (modify f)
  unfolding ◌>>=◌
  Keeps-modify f h = record { at = h }

module _ {S A : Type 0} {R P : S → Type 0} where
  -- What was read is known behind the reading.
  pub Triple-gets : (f : S → A) → Triple R P (gets f) (λ a s. R s × (f s ≡ a))
  unfolding ◌>>=◌
  Triple-gets f = record { at = λ s h. (h, refl) }

module _ {S : Type 0} {R P : S → Type 0} where
  pub Triple-assert : (b : Bool) → Triple R P (assert b) (λ _. R)
  Triple-assert true = Triple-pure tt (λ s h. h)
  Triple-assert false = Triple-panics

module _ {S : Type 0} {R P Q : S → Type 0} where
  pub Triple-modify : (f : S → S) → ((s : S) → R s → Q (f s)) → Triple R P (modify f) (λ _. Q)
  unfolding ◌>>=◌
  Triple-modify f h = record { at = h }

module _ {S A B : Type 0} {P : S → Type 0} where
  pub Keeps-bind :
      (m : Act S A) (f : A → Act S B) → Keeps P m → ((a : A) → Keeps P (f a)) → Keeps P (m >>= f)
  Keeps-bind m f km kf = Triple-bind m f km kf

module _ {S A : Type 0} {R R2 P P2 : S → Type 0} {Q Q2 : A → S → Type 0} where
  -- Less is known before, and less is said behind.
  pub Triple-weaken :
      (m : Act S A)
      → ((s : S) → R2 s → R s)
      → ((s : S) → P s → P2 s)
      → ((a : A) (s : S) → Q a s → Q2 a s)
      → Triple R P m Q
      → Triple R2 P2 m Q2
  Triple-weaken m hr hp hq t = record { at = λ s h. go (m s) (t.at s (hr s h)) }
    where
      go : (r : Outcome A × S) → Holds P Q r → Holds P2 Q2 r
      go (ok a, s) h = hq a s h
      go (err e, s) h = hp s h
      go (panic, s) h = tt

-- Nothing is asked of the state.
abbrev pub Top : {S : Type 0} → S → Type 0
Top s = Unit

module _ {S A : Type 0} {R : S → Type 0} where
  pub Triple-any : (m : Act S A) → Triple R Top m (λ _. Top)
  Triple-any m = record { at = λ s h. go (m s) }
    where
      go : (r : Outcome A × S) → Holds Top (λ _. Top) r
      go (ok a, s) = tt
      go (err e, s) = tt
      go (panic, s) = tt

pub ruleset keeps_rules = (
  Keeps-pure, Keeps-raise, Keeps-panics, Keeps-gets, Keeps-if, Keeps-option, Keeps-ok_or,
  Keeps-expect, Keeps-assert, Keeps-add_usize, Keeps-bind,
)
