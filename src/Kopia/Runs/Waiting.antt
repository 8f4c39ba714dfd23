-- ===== src/Kopia/Runs/Waiting.antt =====
-- The loops that wait for an executor: what holds where one returns, and that they end.
use kdmp.Base.{
  ℕ, zero, suc, Bool, true, false, Option, none, some, Error, Result, ok, err, Call, ◌≡◌, refl, ◌⊎◌,
  inl, inr, arith, sym, ◌∙◌, Option-cases,
}
use kdmp.Services.{Retry, RetryLaws, Attempt, done}
use kdmp.Executor.{ExecutorServices, Status, Exit}
use kdmp.Executor.Outcomes.{Outcome, returned, failed, Run}
use kdmp.Kopia.Executors.{State, Executor, started}
use kdmp.Kopia.Runs.{
  run, running, settled, observe, judged, written, looked, await, status_task, retried,
}

-- A Run without an error has started the command.
module _ {W F : Type 0} (x : ExecutorServices W F) {S R : Type 0} (e : Executor S R) where
  running-started :
      (z : W × Result (Unit {0})) (w : W) (st : State S)
      → ◌≡◌ {A = W × Result (State S)} (z.0, running x e z.1) (w, ok st)
      → (z ≡ (w, ok tt)) × (st ≡ started)
  running-started (w', ok tt') w st h = (ground arith, ground arith)
  running-started (w', err f) w st h = (cc, cc)

  pub run-started :
      (w w' : W) (st : State S)
      → run x e w ≡ (w', ok st)
      → (x.start e.command w ≡ (w', ok tt)) × (st ≡ started)
  unfolding run
  run-started w w' st h = running-started (x.start e.command w) w' st h

module _ {W F : Type 0} (write : Status F → Call W Unit) where
  -- A status without an error that says Done and was written, after which the loop ended.
  abbrev pub Final : Status F → W → Type 0
  Final status w' =
      (w : W) × (write status w ≡ (w', ok tt))
      × (status.last_known_error ≡ none)
      × (status.done ≡ true)

  written-returned :
      (z : W × Result (Unit {0})) (status : Status F) (rest : Run W Unit) (w' : W)
      → written z.1 status rest z.0 ≡ (w', returned tt)
      → ((z ≡ (w', ok tt)) × (status.last_known_error ≡ none) × (status.done ≡ true))
        ⊎ (rest z.0 ≡ (w', returned tt))
  unfolding written judged
  written-returned (w, err e) status rest w' h = inr h
  written-returned (w, ok _) status rest w' h = ground arith

  looked-returned :
      (o : Option (Status F)) (rest : Run W Unit) (w w' : W)
      → looked write o rest w ≡ (w', returned tt)
      → ((status : Status F) × (o ≡ some status) × Final status w')
        ⊎ ((w₁ : W) × (rest w₁ ≡ (w', returned tt)))
  unfolding looked
  looked-returned none rest w w' h = cc
  looked-returned (some status) rest w w' h =
      elim (written-returned (write status w) status rest w' h) [
        | inl (p, e, d) ↦ inl (status, refl, (w, p, e, d))
        | inr p ↦ inr ((write status w).0, p)
      ]

module _ {W F : Type 0} (x : ExecutorServices W F) {S R : Type 0} (e : Executor S R)
    (view : R → Option (Status F)) (write : Status F → Call W Unit) where
  -- A loop that returns ends with such a status, of a state that has whatever each look keeps.
  pub await-Final :
      (I : State S → Type 0)
      → ((w w' : W) (o : Option Exit) (st : State S)
          → x.look w ≡ (w', o)
          → I st
          → I (settled x e o st))
      → (n : ℕ) (st : State S) (w w' : W) → await x e view write n st w ≡ (w', returned tt)
      → I st
      → (st' : State S) × (status : Status F) × I st'
        × (view (e.status st') ≡ some status)
        × Final write status w'
  unfolding await observe
  await-Final I keep zero st w w' h i = cc
  await-Final I keep (suc n) st w w' h i =
      let st' = settled x e (x.look w).1 st in
      let i' : I st' = keep w (x.look w).0 (x.look w).1 st refl i in
      elim (looked-returned write (view (e.status st')) (await x e view write n st') (x.look w).0 w'
        h) [
          | inl (status, p, f) ↦ (st', status, i', p, f)
          | inr (w₁, p) ↦ await-Final I keep n st' w₁ w' p i'
        ]

module _ {W F : Type 0} (x : ExecutorServices W F) {S : Type 0} (e : Executor S (Status F))
    (write : Status F → Call W Unit) where
  -- The process ends within that many looks, whatever is written in between.
  abbrev pub EndsWithin : ℕ → W → Type 0
  EndsWithin zero w = ⊥
  EndsWithin (suc n) w =
      ((exit : Exit) × ((x.look w).1 ≡ some exit))
      ⊎ ((status : Status F) → EndsWithin n (write status (x.look w).0).0)

  -- The loop has ended by itself.
  abbrev pub Ended : Outcome Unit → Type 0
  Ended o = (o ≡ returned tt) ⊎ ((f : Error) × (o ≡ failed f))

  abbrev pub IsOver : Status F → Type 0
  IsOver status = (status.done ≡ true) ⊎ ((f : Error) × (status.last_known_error ≡ some f))

  judged_by : Option Error → Bool → Run W Unit → Run W Unit
  judged_by (some f) d rest w = (w, failed f)
  judged_by none true rest w = (w, returned tt)
  judged_by none false rest w = rest w

  judged-judged_by :
      (status : Status F) (rest : Run W Unit) (w : W) (f : Option Error) (d : Bool)
      → status.last_known_error ≡ f
      → status.done ≡ d
      → judged status rest w ≡ judged_by f d rest w
  unfolding judged judged_by
  judged-judged_by status rest w (some f) d p q = rw p
  judged-judged_by status rest w none true p q = rw (p, q)
  judged-judged_by status rest w none false p q = rw (p, q)

  judged_by-Ended :
      (f : Option Error) (d : Bool) (rest : Run W Unit) (w : W)
      → ((d ≡ true) ⊎ ((g : Error) × (f ≡ some g))) ⊎ Ended (rest w).1
      → Ended (judged_by f d rest w).1
  unfolding judged_by
  judged_by-Ended (some f) d rest w h = inr (f, refl)
  judged_by-Ended none true rest w h = inl refl
  judged_by-Ended none false rest w (inl (inl p)) = cc
  judged_by-Ended none false rest w (inl (inr (g, p))) = cc
  judged_by-Ended none false rest w (inr h) = h

  judged-Ended :
      (status : Status F) (rest : Run W Unit) (w : W)
      → IsOver status ⊎ Ended (rest w).1
      → Ended (judged status rest w).1
  judged-Ended status rest w h =
      rw (judged-judged_by status rest w status.last_known_error status.done refl refl)
        (judged_by-Ended status.last_known_error status.done rest w h)

  module _ (written_always : (status : Status F) (w : W) → (write status w).1 ≡ ok tt) where
    looked-Ended :
        (status : Status F) (rest : Run W Unit) (w : W)
        → IsOver status ⊎ Ended (rest (write status w).0).1
        → Ended (looked write (some status) rest w).1
    unfolding looked written
    looked-Ended status rest w h =
        rw (written_always status w) (judged-Ended status rest (write status w).0 h)

    -- Where each write succeeds, and what a process leaves when it ends is told by the status, a
    -- loop that is given as many looks as the process takes ends by itself.
    pub await-Ended :
        ((exit : Exit) (st : State S)
          → IsOver (e.status (record (e.settle exit st) { waiting = false })))
        → (n : ℕ) (st : State S) (w : W) → st.waiting ≡ true
        → EndsWithin n w
        → Ended (await x e some write n st w).1
    unfolding await observe settled
    await-Ended over zero st w i h = absurd h
    await-Ended over (suc n) st w i h = elim (Option-cases (x.look w).1) [
      | inr (exit, p) ↦ rw (p, i) (looked-Ended _ _ _ (inl (over exit _)))
      | inl p ↦ rw p (
          looked-Ended (e.status st) (await x e some write n st) (x.look w).0 (elim h [
            | inl (exit, q) ↦ (let k : none ≡ some exit = sym p ∙ q in cc)
            | inr f ↦ inr (await-Ended over n st _ i (f (e.status st)))
          ]))
    ]

module _ {W F : Type 0} (x : ExecutorServices W F) (r : Retry) {S : Type 0}
    (e : Executor S (Status F)) (verdict : Status F → W → W × Attempt Unit) where
  -- A task that is done at its first run.
  pub retried-done :
      RetryLaws r
      → (st st' : State S) (w w' : W) → status_task x r e verdict (st, w) ≡ ((st', w'), done tt)
      → retried x r e verdict st w ≡ (w', returned tt)
  unfolding retried
  retried-done laws st st' w w' h =
      rw (laws.prompt (State S × W) Unit (status_task x r e verdict) (st, w) (st', w') tt h)
