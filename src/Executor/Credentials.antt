-- ===== src/Executor/Credentials.antt =====
-- The repository that the executors read from the mounted secret: ParseCloudCred and the functions
-- that it calls, in pkg/executor/common.go.
pub mod Mounted
use kdmp.Base.{[], ◌∷◌, ◌++◌, Text, codes, Error, errorf, Call, format, text_eq, if◌then◌else◌}
use kdmp.Base.Results.{return, wrap, lift_result, map_error, ◌>>=◌}
use kdmp.Executor.{ExecutorServices, Repository, Store}

-- A file of the secret's mount.
abbrev pub cred_path : Text → Text
cred_path key = codes "/etc/cred-secret/" ++ key

module _ {W F : Type 0} (x : ExecutorServices W F) where
  -- ioutil.ReadFile, with the message of every caller here.
  unfoldable pub read_cred : Text → Call W Text
  read_cred path =
      wrap (λ e. errorf (format "failed reading data from file %s : %s" (path ∷ e.text ∷ [])))
        (x.read_file path)

  abbrev ssl_error : Text → Error → Error
  ssl_error v e = errorf (format "failed converting ssl value %v to bool: %s" (v ∷ e.text ∷ []))

  unfoldable pub parse_s3_creds : Call W Store
  unfolding read_cred
  parse_s3_creds = do
    access_key ← read_cred (cred_path (codes "accessKey"))
    secret_access_key ← read_cred (cred_path (codes "secretAccessKey"))
    endpoint ← read_cred (cred_path (codes "endpoint"))
    disable_ssl ← read_cred (cred_path (codes "disablessl"))
    ssl ← lift_result (map_error (ssl_error disable_ssl) (x.parse_bool disable_ssl))
    region ← read_cred (cred_path (codes "region"))
    return (
        Store.s3 (record {
          endpoint = endpoint;
          access_key_id = access_key;
          secret_access_key = secret_access_key;
          region = region;
          disable_ssl = ssl;
        }))

  unfoldable pub parse_google_creds : Call W Store
  unfolding read_cred
  parse_google_creds = do
    project_id ← read_cred (cred_path (codes "projectid"))
    account_key ← read_cred (cred_path (codes "accountkey"))
    return (Store.google (record { project_id = project_id; account_key = account_key }))

  unfoldable pub parse_azure_creds : Call W Store
  unfolding read_cred
  parse_azure_creds = do
    name ← read_cred (cred_path (codes "storageaccountname"))
    key ← read_cred (cred_path (codes "storageaccountkey"))
    return (Store.azure (record { storage_account_name = name; storage_account_key = key }))

  -- The switch on the type; another type leaves the repository empty.
  unfoldable pub parse_store : Text → Call W Store
  unfolding parse_s3_creds parse_google_creds parse_azure_creds
  parse_store type =
      if text_eq type (codes "s3")
      then parse_s3_creds
      else if text_eq type (codes "google")
      then parse_google_creds
      else if text_eq type (codes "azure")
      then parse_azure_creds
      else return Store.unset

  unfoldable pub parse_cloud_cred : Call W Repository
  unfolding read_cred parse_store
  parse_cloud_cred = do
    type ← read_cred (cred_path (codes "type"))
    store ← parse_store type
    password ← read_cred (cred_path (codes "password"))
    bucket ← read_cred (cred_path (codes "path"))
    return (record { name = []; path = bucket; auth_env = []; store = store; password = password })
