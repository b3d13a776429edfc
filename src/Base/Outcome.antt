-- ===== src/Base/Outcome.antt =====
-- How a call of the program ends, and methods that change an object and may throw.
use Prim.Native.String.{String}
use mathlib.Core.Path.{◌≡◌, refl, ap}
use replicated_splinterdb.Base.Int.{ℤ}

pub data Exception : Type 0 where
  runtime_error invalid_argument out_of_range length_error overflow_error : String → Exception

-- `undefined` is behaviour that the C++ standard does not define; `exited` is a call of `exit`.
pub data Result {ℓ} (A : Type ℓ) : Type ℓ where
  ok : A → Result A
  throw : Exception → Result A
  undefined : Result A
  exited : ℤ → Result A

pub ok_eq : {A : Type 0} {a b : A} → ok a ≡ ok b → a ≡ b
ok_eq e = cc

module _ {ℓ κ} {A : Type ℓ} {B : Type κ} where
  abbrev pub bind : Result A → (A → Result B) → Result B
  bind (ok a) f = f a
  bind (throw e) f = throw e
  bind undefined f = undefined
  bind (exited c) f = exited c

-- What was written before an exception stays written, so the state comes back beside the outcome.
abbrev pub Exec {ℓ} : Type ℓ → Type ℓ → Type ℓ
Exec S A = S → Result A × S

module _ {ℓ} {S A : Type ℓ} where
  abbrev pub pure : A → Exec S A
  pure a s = (ok a, s)

  abbrev pub raise : Exception → Exec S A
  raise e s = (throw e, s)

  abbrev pub lift : Result A → Exec S A
  lift r s = (r, s)

  abbrev pub gets : (S → A) → Exec S A
  gets f s = (ok (f s), s)

abbrev pub modify : {S : Type 0} → (S → S) → Exec S (Unit {0})
modify f s = (ok tt, f s)

module _ {ℓ} {S A B : Type ℓ} where
  abbrev continue : Result A → (A → Exec S B) → Exec S B
  continue (ok a) f s = f a s
  continue (throw e) f s = (throw e, s)
  continue undefined f s = (undefined, s)
  continue (exited c) f s = (exited c, s)

  infixl 5 ◌>>=◌ ◌>>◌
  abbrev pub ◌>>=◌ : Exec S A → (A → Exec S B) → Exec S B
  ◌>>=◌ m f s = let (r, s') = m s in continue r f s'

  abbrev pub ◌>>◌ : Exec S A → Exec S B → Exec S B
  m >> n = m >>= λ _. n

module _ {ℓ} {S A B : Type ℓ} where
  continue_ok :
      (x : Result A) (f : A → Exec S B) (s : S) (b : B)
      → (continue x f s).0 ≡ ok b
      → (a : A) × (x ≡ ok a) × ((f a s).0 ≡ ok b)
  continue_ok (ok a) f s b e = (a, refl, e)
  continue_ok (throw x) f s b e = cc
  continue_ok undefined f s b e = cc
  continue_ok (exited c) f s b e = cc

  -- A sequence that returns a value: what its first part returned, and that the rest returned it.
  pub bind_ok :
      (m : Exec S A) (f : A → Exec S B) (s : S) (b : B)
      → ((m >>= f) s).0 ≡ ok b
      → (a : A) × ((m s).0 ≡ ok a) × ((f a (m s).1).0 ≡ ok b)
  bind_ok m f s b e = continue_ok (m s).0 f (m s).1 b e

  continue_keeps :
      (I J : S → Type 0) (x : Result A) (f : A → Exec S B) (s : S)
      → I s
      → ((t : S) → I t → J t)
      → ((a : A) (t : S) → I t → J (f a t).1)
      → J (continue x f s).1
  continue_keeps I J (ok a) f s i weaken go_on = go_on a s i
  continue_keeps I J (throw x) f s i weaken go_on = weaken s i
  continue_keeps I J undefined f s i weaken go_on = weaken s i
  continue_keeps I J (exited c) f s i weaken go_on = weaken s i

  -- A sequence ends where `J` holds if its first part ends where `I` holds, `I` gives `J`, and the rest
  -- leads from `I` to `J`.
  pub bind_keeps :
      (I J : S → Type 0) (m : Exec S A) (f : A → Exec S B) (s : S)
      → I (m s).1
      → ((t : S) → I t → J t)
      → ((a : A) (t : S) → I t → J (f a t).1)
      → J ((m >>= f) s).1
  bind_keeps I J m f s = continue_keeps I J (m s).0 f (m s).1

module _ {ℓ} {S A B C : Type ℓ} where
  continue_assoc :
      (x : Result A) (f : A → Exec S B) (g : B → Exec S C) (s : S)
      → continue (continue x f s).0 g (continue x f s).1 ≡ continue x (λ a. f a >>= g) s
  continue_assoc (ok a) f g s = refl
  continue_assoc (throw e) f g s = refl
  continue_assoc undefined f g s = refl
  continue_assoc (exited c) f g s = refl

  pub bind_assoc :
      (m : Exec S A) (f : A → Exec S B) (g : B → Exec S C) (s : S)
      → ((m >>= f) >>= g) s ≡ (m >>= λ a. f a >>= g) s
  bind_assoc m f g s = continue_assoc (m s).0 f g (m s).1

module _ {ℓ} {S A B : Type ℓ} where
  continue_ext :
      (x : Result A) (f g : A → Exec S B) (s : S)
      → ((a : A) (t : S) → f a t ≡ g a t)
      → continue x f s ≡ continue x g s
  continue_ext (ok a) f g s h = h a s
  continue_ext (throw e) f g s h = refl
  continue_ext undefined f g s h = refl
  continue_ext (exited c) f g s h = refl

  pub bind_ext :
      (m : Exec S A) (f g : A → Exec S B) (s : S)
      → ((a : A) (t : S) → f a t ≡ g a t)
      → (m >>= f) s ≡ (m >>= g) s
  bind_ext m f g s = continue_ext (m s).0 f g (m s).1

  -- A sequence sees of its first part only what that does where it starts.
  pub bind_same :
      (m n : Exec S A) (f : A → Exec S B) (s : S) → m s ≡ n s → (m >>= f) s ≡ (n >>= f) s
  bind_same m n f s e = ap (λ r. continue r.0 f r.1) e

module _ {ℓ} {S A : Type ℓ} where
  continue-pure : (x : Result A) (s : S) → continue x pure s ≡ (x, s)
  continue-pure (ok a) s = refl
  continue-pure (throw e) s = refl
  continue-pure undefined s = refl
  continue-pure (exited c) s = refl

  pub bind_pure : (m : Exec S A) (s : S) → (m >>= pure) s ≡ m s
  bind_pure m s = continue-pure (m s).0 (m s).1

module _ {ℓ} {S A B : Type ℓ} where
  -- A sequence whose first part returns a value goes on with it.
  pub bind_step :
      (m : Exec S A) (f : A → Exec S B) (s : S) (a : A) → (m s).0 ≡ ok a → (m >>= f) s ≡ f a (m s).1
  bind_step m f s a e = ap (λ r. continue r f (m s).1) e
