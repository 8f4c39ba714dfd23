-- ===== src/Base/Results.antt =====
-- Errors as values. An error keeps what the callers ask of it: the kinds that the Kubernetes
-- helpers IsNotFound and IsAlreadyExists tell apart, the three sentinels that are compared by
-- identity, and its text.
use mathlib.Core.Bool.{Bool, true, false}
use mathlib.Core.Path.{◌≡◌, refl}
use mathlib.Core.Logic.{◌⊎◌, inl, inr}
use kdmp.Base.Texts.{Text}

pub data ErrorKind : Type 0 where
  not_found already_exists job_already_running out_of_job_resources : ErrorKind
  already_repo_exist other : ErrorKind

pub record Error : Type 0 where
  pub kind : ErrorKind
  pub text : Text

-- `fmt.Errorf`: a new error of no kind.
abbrev pub errorf : Text → Error
errorf t = record { kind = other; text = t }

abbrev is_not_found_kind : ErrorKind → Bool
is_not_found_kind not_found = true
is_not_found_kind _ = false

abbrev is_already_exists_kind : ErrorKind → Bool
is_already_exists_kind already_exists = true
is_already_exists_kind _ = false

abbrev pub is_not_found : Error → Bool
is_not_found e = is_not_found_kind e.kind

abbrev pub is_already_exists : Error → Bool
is_already_exists e = is_already_exists_kind e.kind

pub data Result {ℓ} (A : Type ℓ) : Type ℓ where
  ok : A → Result A
  err : Error → Result A

pub Result-cases {ℓ} :
    {A : Type ℓ} (x : Result A) → ((a : A) × (x ≡ ok a)) ⊎ ((e : Error) × (x ≡ err e))
Result-cases (ok a) = inl (a, refl)
Result-cases (err e) = inr (e, refl)

-- A call of something outside: it may change the state S behind it, and may fail.
abbrev pub Call : Type 0 → Type 0 → Type 0
Call S A = S → S × Result A

-- `if err != nil { return fmt.Errorf(…) }` around a call.
abbrev pub map_error : {A : Type 0} → (Error → Error) → Result A → Result A
map_error f (ok a) = ok a
map_error f (err e) = err (f e)

module _ {S A : Type 0} where
  -- `return a, nil` and `return nil, err`.
  abbrev pub return : A → Call S A
  return a s = (s, ok a)

  abbrev pub raise : Error → Call S A
  raise e s = (s, err e)

  abbrev pub lift_result : Result A → Call S A
  lift_result r s = (s, r)

  abbrev pub wrap : (Error → Error) → Call S A → Call S A
  wrap f m s = let (s', r) = m s in (s', map_error f r)

module _ {S A B : Type 0} where
  abbrev then_call : Result A → (A → Call S B) → Call S B
  then_call (ok a) f s = f a s
  then_call (err e) f s = (s, err e)

  infixl 5 ◌>>=◌ ◌>>◌
  abbrev pub ◌>>=◌ : Call S A → (A → Call S B) → Call S B
  ◌>>=◌ m f s = let (s', r) = m s in then_call r f s'

  abbrev pub ◌>>◌ : Call S A → Call S B → Call S B
  m >> n = m >>= λ _. n

-- A chain of calls that gives a value goes through a value of its first call.
module _ {S A B : Type 0} where
  then_call_ok :
      (z : S × Result A) (f : A → Call S B) (s : S) (b : B)
      → then_call z.1 f z.0 ≡ (s, ok b)
      → (s' : S) × (a : A) × (z ≡ (s', ok a)) × (f a s' ≡ (s, ok b))
  then_call_ok (s', ok a) f s b h = (s', a, refl, h)
  then_call_ok (s', err e) f s b h = cc

  pub bind_ok :
      (m : Call S A) (f : A → Call S B) (w s : S) (b : B)
      → (m >>= f) w ≡ (s, ok b)
      → (s' : S) × (a : A) × (m w ≡ (s', ok a)) × (f a s' ≡ (s, ok b))
  bind_ok m f w s b h = then_call_ok (m w) f s b h

map_error_ok :
    {S A : Type 0} (f : Error → Error) (z : S × Result A) (s : S) (a : A)
    → ◌≡◌ {A = S × Result A} (z.0, map_error f z.1) (s, ok a)
    → z ≡ (s, ok a)
map_error_ok f (s', ok b) s a h = h
map_error_ok f (s', err e) s a h = cc

pub wrap_ok :
    {S A : Type 0} (f : Error → Error) (m : Call S A) (w s : S) (a : A)
    → wrap f m w ≡ (s, ok a)
    → m w ≡ (s, ok a)
wrap_ok f m w s a h = map_error_ok f (m w) s a h

-- A chain that begins with a value: nothing is called for it.
pub lift_ok :
    {S A B : Type 0} (z : Result A) (f : A → Call S B) (w s : S) (b : B)
    → (lift_result z >>= f) w ≡ (s, ok b)
    → (a : A) × (z ≡ ok a) × (f a w ≡ (s, ok b))
lift_ok (ok a) f w s b h = (a, refl, h)
lift_ok (err e) f w s b h = cc
