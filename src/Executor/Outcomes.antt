-- ===== src/Executor/Outcomes.antt =====
-- Runs of an executor: a computation that ends with a value or an error, dereferences nil or leaves
-- a slice's bounds (`crash`), or has not ended after the looks that it was given (`unfinished`).
use kdmp.Base.{
  Error, errorf, Result, ok, err, Call, Text, String, [], ◌∷◌, ◌++◌, format, codes, ◌≡◌, refl,
  arith,
}

pub data Outcome (A : Type 0) : Type 0 where
  returned : A → Outcome A
  failed : Error → Outcome A
  crash unfinished : Outcome A

abbrev pub Run : Type 0 → Type 0 → Type 0
Run W A = W → W × Outcome A

abbrev pub of_result : {A : Type 0} → Result A → Outcome A
of_result (ok a) = returned a
of_result (err e) = failed e

-- `fmt.Errorf("%s: %v", msg, err)`.
abbrev pub prefixed : Text → Error → Error
prefixed msg e = errorf (msg ++ (codes ": " ++ e.text))

-- `fmt.Errorf(msg, err)`.
abbrev pub with_error : String → Error → Error
with_error msg e = errorf (format msg (e.text ∷ []))

module _ {W A : Type 0} where
  abbrev pub result : A → Run W A
  result a w = (w, returned a)

  abbrev pub failure : Error → Run W A
  failure e w = (w, failed e)

  abbrev pub run_call : Call W A → Run W A
  run_call m w = let (w', r) = m w in (w', of_result r)

  abbrev pub run_result : Result A → Run W A
  run_result r w = (w, of_result r)

  abbrev pub then_handle : Outcome A → (Error → Run W A) → Run W A
  then_handle (returned a) f w = (w, returned a)
  then_handle (failed e) f w = f e w
  then_handle crash f w = (w, crash)
  then_handle unfinished f w = (w, unfinished)

  -- `if err := m; err != nil { … }`.
  abbrev pub handle : (Error → Run W A) → Run W A → Run W A
  handle f m w = let (w', r) = m w in then_handle r f w'

  abbrev pub rephrase : (Error → Error) → Run W A → Run W A
  rephrase f m = handle (λ e. failure (f e)) m

module _ {W A B : Type 0} where
  abbrev pub then_run : Outcome A → (A → Run W B) → Run W B
  then_run (returned a) f w = f a w
  then_run (failed e) f w = (w, failed e)
  then_run crash f w = (w, crash)
  then_run unfinished f w = (w, unfinished)

  infixl 5 ◌>>=◌ ◌>>◌
  abbrev pub ◌>>=◌ : Run W A → (A → Run W B) → Run W B
  ◌>>=◌ m f w = let (w', r) = m w in then_run r f w'

  abbrev pub ◌>>◌ : Run W A → Run W B → Run W B
  m >> n = m >>= λ _. n

-- A chain that returns a value goes through a value of its first run.
module _ {W A B : Type 0} where
  then_run_returned :
      (z : W × Outcome A) (f : A → Run W B) (s : W) (b : B)
      → then_run z.1 f z.0 ≡ (s, returned b)
      → (s' : W) × (a : A) × (z ≡ (s', returned a)) × (f a s' ≡ (s, returned b))
  then_run_returned (s', returned a) f s b h = (s', a, refl, h)
  then_run_returned (s', failed e) f s b h = cc
  then_run_returned (s', crash) f s b h = cc
  then_run_returned (s', unfinished) f s b h = cc

  pub bind_returned :
      (m : Run W A) (f : A → Run W B) (w s : W) (b : B)
      → (m >>= f) w ≡ (s, returned b)
      → (s' : W) × (a : A) × (m w ≡ (s', returned a)) × (f a s' ≡ (s, returned b))
  bind_returned m f w s b h = then_run_returned (m w) f s b h

module _ {W A : Type 0} where
  -- A handler that never returns a value: what is returned was returned without it.
  abbrev pub NeverReturns : (Error → Run W A) → Type 0
  NeverReturns f = (e : Error) (w s : W) (a : A) → ¬ (f e w ≡ (s, returned a))

  then_handle_returned :
      (z : W × Outcome A) (f : Error → Run W A) (s : W) (a : A)
      → NeverReturns f
      → then_handle z.1 f z.0 ≡ (s, returned a)
      → z ≡ (s, returned a)
  then_handle_returned (s', returned b) f s a n h = h
  then_handle_returned (s', failed e) f s a n h = absurd (n e s' s a h)
  then_handle_returned (s', crash) f s a n h = cc
  then_handle_returned (s', unfinished) f s a n h = cc

  pub handle_returned :
      (f : Error → Run W A) (m : Run W A) (w s : W) (a : A)
      → NeverReturns f
      → handle f m w ≡ (s, returned a)
      → m w ≡ (s, returned a)
  handle_returned f m w s a n h = then_handle_returned (m w) f s a n h

  pub rephrase_returned :
      (f : Error → Error) (m : Run W A) (w s : W) (a : A)
      → rephrase f m w ≡ (s, returned a)
      → m w ≡ (s, returned a)
  rephrase_returned f m w s a h = handle_returned (λ e. failure (f e)) m w s a (λ e w' s' b k. cc) h

  of_result_returned :
      (z : W × Result A) (s : W) (a : A)
      → ◌≡◌ {A = W × Outcome A} (z.0, of_result z.1) (s, returned a)
      → z ≡ (s, ok a)
  of_result_returned (s', ok b) s a h = λ i. (
    (h i).0,
    elim ((h i).1) [ returned c ↦ ok c | failed e ↦ err e | crash ↦ ok b | unfinished ↦ ok b ],
  )
  of_result_returned (s', err e) s a h = cc

  pub run_call_returned :
      (m : Call W A) (w s : W) (a : A) → run_call m w ≡ (s, returned a) → m w ≡ (s, ok a)
  run_call_returned m w s a h = of_result_returned (m w) s a h

-- A chain that ends in a failure returns no value.
pub then-failure :
    {W A B : Type 0} (m : Run W A) (e : Error) (w s : W) (b : B)
    → ¬ ((m >> failure e) w ≡ (s, returned b))
then-failure m e w s b h =
    let (s', a, p, q) = bind_returned m (λ _. failure e) w s b h in absurd (ground arith)
