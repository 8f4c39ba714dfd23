-- ===== src/Executor/Maintenance/Errors.antt =====
-- Errors in the maintenance of one repository.
use kdmp.Base.{ℕ, List, [], ◌∷◌, Text, Error, ◌≡◌}
use kdmp.Services.{Retry}
use kdmp.Executor.{MaintenanceResult, ExecutorServices, Floats, Flags, Repository}
use kdmp.Executor.Outcomes.{
  Outcome, returned, failed, crash, unfinished, Run, handle, then_run, then_handle, ◌>>◌,
}
use kdmp.Executor.Maintenance.{maintain, maintain_all, maintain_steps, noted}
use kdmp.Executor.Maintenance.Objects.{get_backup_path_with_repo_name}

abbrev pub NotFailed : Outcome Unit → Type 0
NotFailed o = (e : Error) → ¬ (o ≡ failed e)

module _ {W : Type 0} where
  then-NotFailed :
      (m n : Run W Unit) (w : W)
      → NotFailed (m w).1
      → ((w' : W) → NotFailed (n w').1)
      → NotFailed ((m >> n) w).1
  then-NotFailed m n w h g e p = chained (m w) h p
    where
      chained :
          (z : W × Outcome Unit) → NotFailed z.1 → ¬ ((then_run z.1 (λ _. n) z.0).1 ≡ failed e)
      chained (w', returned t) h' p' = g w' e p'
      chained (w', failed f) h' p' = h' f kdmp.Base.refl
      chained (w', crash) h' p' = cc
      chained (w', unfinished) h' p' = cc

  handle-NotFailed :
      (f : Error → Run W Unit) (m : Run W Unit) (w : W)
      → ((e : Error) (w' : W) → NotFailed (f e w').1)
      → NotFailed (handle f m w).1
  handle-NotFailed f m w g e p = handled (m w) p
    where
      handled : (z : W × Outcome Unit) → ¬ ((then_handle z.1 f z.0).1 ≡ failed e)
      handled (w', returned t) p' = cc
      handled (w', failed e') p' = g e' w' e p'
      handled (w', crash) p' = cc
      handled (w', unfinished) p' = cc

module _ {W F : Type 0} (x : ExecutorServices W F) (floats : Floats F) (r : Retry) (flags : Flags)
    (name namespace : Text) where
  maintain-NotFailed :
      (looks : ℕ) (type : Text) (repo : Repository) (w : W)
      → NotFailed (maintain x floats r flags name namespace looks type repo w).1
  unfolding maintain noted
  maintain-NotFailed looks type repo w =
      handle-NotFailed
        (λ e. noted x floats r flags name namespace type MaintenanceResult.failed repo.name e.text)
        (maintain_steps x floats r flags name namespace looks type repo) w (λ e w' e' p. cc)

  -- The loop of runMaintenance over the keys never ends with an error, whatever fails for the single
  -- repositories.
  pub maintain_all-NotFailed :
      (looks : ℕ) (type : Text) (repo : Repository) (keys : List Text) (w : W)
      → NotFailed (maintain_all x floats r flags name namespace looks type repo keys w).1
  unfolding maintain_all
  maintain_all-NotFailed looks type repo [] w = λ e p. cc
  maintain_all-NotFailed looks type repo (key ∷ keys) w =
      let named = record repo { name = get_backup_path_with_repo_name key } in
      then-NotFailed (maintain x floats r flags name namespace looks type named)
        (maintain_all x floats r flags name namespace looks type repo keys) w
        (maintain-NotFailed looks type named w)
        (λ w'. maintain_all-NotFailed looks type repo keys w')
