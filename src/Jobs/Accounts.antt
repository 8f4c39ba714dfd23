-- ===== src/Jobs/Accounts.antt =====
-- The service accounts of the executors' jobs: pkg/drivers/utils/common.go.
use kdmp.Base.{
  Bool, List, [], ◌∷◌, String, Text, codes, Error, errorf, Result, ok, err, Call, format,
  is_already_exists, is_not_found, if◌then◌else◌,
}
use kdmp.Base.Strings.{insert_text}
use kdmp.Base.Results.{wrap, ◌>>=◌, ◌>>◌}
use kdmp.Services.{Retry, Attempt, done, again}
use kdmp.Jobs.Batch.{BatchServices, PolicyRule}

abbrev pub skip_resource_annotations : List (Text × Text)
skip_resource_annotations = (codes "stork.libopenstorage.org/skip-resource", codes "true") ∷ []

-- `if err != nil && !f(err) { return fmt.Errorf(…) }`
unfoldable pub unless : (Error → Bool) → (Error → Error) → Result (Unit {0}) → Result (Unit {0})
unless accept f (ok _) = ok tt
unless accept f (err e) = if accept e then ok tt else err (f e)

abbrev pub unless_call :
    {W : Type 0} → (Error → Bool) → (Error → Error) → Call W (Unit {0}) → Call W (Unit {0})
unless_call accept f m w = let (w', r) = m w in (w', unless accept f r)

module _ {W F : Type 0} (b : BatchServices W F) (r : Retry) (name namespace : Text) where
  abbrev account_error : String → Error → Error
  account_error msg e = errorf (format msg (namespace ∷ name ∷ e.text ∷ []))

  -- The role is given by its rules.
  unfoldable pub create_account : List PolicyRule → Call W (Unit {0})
  create_account rules = do
    unless_call is_already_exists (account_error "create %s/%s role: %s")
        (b.create_role name namespace skip_resource_annotations rules)
    unless_call is_already_exists (account_error "create %s/%s rolebinding: %s")
        (b.create_role_binding name namespace skip_resource_annotations)
    unless_call is_already_exists (account_error "create %s/%s serviceaccount: %s")
        (b.create_service_account name namespace skip_resource_annotations)

  -- One run of the task: the name of the account's first secret.
  unfoldable pub token_attempt : Result (List Text) → Attempt Text
  token_attempt (ok (token ∷ _)) = done token
  token_attempt (ok []) =
      again (errorf (format "secret token is missing in sa [%v/%v]" (name ∷ namespace ∷ [])))
  token_attempt (err e) =
      again (errorf (format "failed fetching sa [%v/%v]: %v" (name ∷ namespace ∷ e.text ∷ [])))

  unfoldable pub token_task : W → W × Attempt Text
  unfolding token_attempt
  token_task w =
      let (w', x) = b.get_service_account_secrets name namespace w in (w', token_attempt x)

  -- A nil map of annotations, at which the source panics, counts as an empty one.
  unfoldable pub mark_token : Text → Call W (Unit {0})
  mark_token token = do
    secret ←
        wrap
          (λ e. errorf (
            format "failed in getting secretToken [%v] of service account [%v/%v]: %v"
              (token ∷ name ∷ namespace ∷ e.text ∷ [])))
          (b.get_secret token namespace)
    wrap
        (λ e. errorf (
          format "failed in updating the secretToken [%v] of service account [%v/%v]: %v"
            (token ∷ name ∷ namespace ∷ e.text ∷ [])))
        (b.update_secret (record secret {
          annotations =
              insert_text (codes "stork.libopenstorage.org/skip-resource") (codes "true")
                secret.annotations;
        }))

  -- SetupServiceAccount, with a role.
  unfoldable pub setup_service_account : List PolicyRule → Call W (Unit {0})
  unfolding create_account token_task mark_token
  setup_service_account rules = do
    create_account rules
    token ← r.do_retry W Text token_task
    mark_token token

module _ {W F : Type 0} (b : BatchServices W F) (name namespace : Text) where
  abbrev clean_error : String → Error → Error
  clean_error msg e = errorf (format msg (namespace ∷ name ∷ e.text ∷ []))

  -- CleanServiceAccount.
  unfoldable pub clean_service_account : Call W (Unit {0})
  clean_service_account = do
    unless_call is_not_found (clean_error "delete %s/%s role: %s") (b.delete_role name namespace)
    unless_call is_not_found (clean_error "delete %s/%s rolebinding: %s")
        (b.delete_role_binding name namespace)
    unless_call is_not_found (clean_error "delete %s/%s serviceaccount: %s")
        (b.delete_service_account name namespace)
