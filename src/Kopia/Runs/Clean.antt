-- ===== src/Kopia/Runs/Clean.antt =====
-- The loops over the executors that have the flag isRunning.
use kdmp.Base.{ℕ, Bool, true, false, Option, none, some, Error, Call, ◌≡◌, refl, arith, if_rule}
use kdmp.Executor.{ExecutorServices, Status, Exit, Floats}
use kdmp.Executor.Outcomes.{returned}
use kdmp.Kopia.Executors.{State, Executor, started, plain_status, running_status, restore_status}
use kdmp.Kopia.Runs.{settled, await}
use kdmp.Kopia.Runs.Waiting.{Final, await-Final}

module _ {W F : Type 0} (x : ExecutorServices W F) where
  -- A process was seen to have ended without a failure.
  abbrev pub Clean : Type 0
  Clean = (w w' : W) × (exit : Exit) × (x.look w ≡ (w', some exit)) × (exit.failure ≡ none)

  abbrev Sound : {S : Type 0} → State S → Type 0
  Sound st = st.last_error ≡ none → st.is_running ≡ false → Clean

  module _ {S R : Type 0} (e : Executor S R)
      (told : (exit : Exit) (st : State S) (f : Error)
        → exit.failure ≡ some f
        → ¬ ((e.settle exit st).last_error ≡ none)) where
    settle-Sound :
        (w w' : W) (exit : Exit) (st : State S) (f : Option Error)
        → exit.failure ≡ f
        → x.look w ≡ (w', some exit)
        → Sound (e.settle exit st)
    settle-Sound w w' exit st (some f) p l q n = absurd (told exit st f p q)
    settle-Sound w w' exit st none p l q n = (w, w', exit, l, p)

    settled-Sound :
        (w w' : W) (o : Option Exit) (st : State S)
        → x.look w ≡ (w', o)
        → Sound st
        → Sound (settled x e o st)
    unfolding settled
    settled-Sound w w' none st l i = i
    settled-Sound w w' (some exit) st l i =
        if_rule Sound st.waiting (settle-Sound w w' exit _ exit.failure refl l) i

    -- A loop that returns has seen such an end, where a status without an error that says Done tells
    -- that the executor is not running.
    pub await-Clean :
        (view : R → Option (Status F)) (write : Status F → Call W Unit)
        → ((st : State S) (status : Status F)
            → view (e.status st) ≡ some status
            → status.last_known_error ≡ none
            → status.done ≡ true
            → (st.last_error ≡ none) × (st.is_running ≡ false))
        → (n : ℕ) (w w' : W) → await x e view write n started w ≡ (w', returned tt)
        → Clean × ((status : Status F) × Final write status w')
    await-Clean view write final n w w' h =
        let (st, status, sound, v, (w₁, written, no_error, is_done)) =
          await-Final x e view write Sound settled-Sound n started w w' h
            (λ p q. absurd (ground arith)) in
        let (p, q) = final st status v no_error is_done in
        (sound p q, (status, (w₁, written, no_error, is_done)))

module _ {F : Type 0} (floats : Floats F) where
  running_status-final :
      (st : State Unit) (f : Option Error) (b : Bool) (status : Status F)
      → st.last_error ≡ f
      → st.is_running ≡ b
      → running_status floats st ≡ status
      → status.last_known_error ≡ none
      → status.done ≡ true
      → (st.last_error ≡ none) × (st.is_running ≡ false)
  unfolding running_status
  running_status-final st (some e) b status p q h n d =
      let h' : plain_status floats true (some e) ≡ status = rw p at h in ground arith
  running_status-final st none true status p q h n d =
      let h' : plain_status floats false none ≡ status = rw (p, q) at h in ground arith
  running_status-final st none false status p q h n d = (p, q)

  restore_status-final :
      (st : State Unit) (f : Option Error) (b : Bool) (status : Status F)
      → st.last_error ≡ f
      → st.is_running ≡ b
      → restore_status floats st ≡ some status
      → status.last_known_error ≡ none
      → status.done ≡ true
      → (st.last_error ≡ none) × (st.is_running ≡ false)
  unfolding restore_status
  restore_status-final st (some e) b status p q h n d =
      let h' : some (plain_status floats true (some e)) ≡ some status = rw p at h in ground arith
  restore_status-final st none true status p q h n d =
      let h' : some (plain_status floats false none) ≡ some status = rw (p, q) at h in ground arith
  restore_status-final st none false status p q h n d = (p, q)

  pub running-final :
      (st : State Unit) (status : Status F)
      → some (running_status floats st) ≡ some status
      → status.last_known_error ≡ none
      → status.done ≡ true
      → (st.last_error ≡ none) × (st.is_running ≡ false)
  running-final st status h n d =
      running_status-final st st.last_error st.is_running status refl refl (cc) n d

  pub restore-final :
      (st : State Unit) (status : Status F)
      → restore_status floats st ≡ some status
      → status.last_known_error ≡ none
      → status.done ≡ true
      → (st.last_error ≡ none) × (st.is_running ≡ false)
  restore-final st status h n d =
      restore_status-final st st.last_error st.is_running status refl refl h n d
