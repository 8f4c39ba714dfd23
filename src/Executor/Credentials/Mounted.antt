-- ===== src/Executor/Credentials/Mounted.antt =====
-- The executors read the secret that the controller makes of a backup location.
use kdmp.Base.{Bool, List, [], Text, ok, ◌≡◌, refl, sym, ◌∙◌, subst, arith, text_eq, All}
use kdmp.Services.{BackupLocation, LocationType}
use kdmp.Controller.Secrets.{
  credential_contents, s3_contents, google_contents, azure_contents, bool_text,
}
use kdmp.Executor.{ExecutorServices, Repository, Store}
use kdmp.Executor.Credentials.{
  cred_path, parse_cloud_cred, parse_store, read_cred, parse_s3_creds, parse_google_creds,
  parse_azure_creds,
}

-- The store of a location's type with its credentials.
abbrev pub store_of : LocationType → BackupLocation → Store
store_of LocationType.s3 l = Store.s3 (record {
  endpoint = l.endpoint;
  access_key_id = l.access_key_id;
  secret_access_key = l.secret_access_key;
  region = l.region;
  disable_ssl = l.disable_ssl;
})
store_of LocationType.azure l = Store.azure (record {
  storage_account_name = l.storage_account_name;
  storage_account_key = l.storage_account_key;
})
store_of LocationType.google l =
    Store.google (record { project_id = l.project_id; account_key = l.account_key })
store_of (LocationType.other t) l = Store.unset

abbrev pub repository_of : BackupLocation → Repository
repository_of l = record {
  name = [];
  path = l.path;
  auth_env = [];
  store = store_of l.type l;
  password = l.repository_password;
}

module _ {W F : Type 0} (x : ExecutorServices W F) (w : W) where
  -- A file of the mount for each entry of the secret.
  abbrev pub Mounts : List (Text × Text) → Type 0
  Mounts m = All (λ e. x.read_file (cred_path e.0) w ≡ (w, ok e.1)) m

  module _ (bools : (b : Bool) → x.parse_bool (bool_text b) ≡ ok b) where
    mounted_s3 :
        (l : BackupLocation)
        → l.type ≡ LocationType.s3
        → Mounts (s3_contents l)
        → parse_cloud_cred x w ≡ (w, ok (repository_of l))
    unfolding s3_contents parse_cloud_cred parse_store parse_s3_creds read_cred text_eq
    mounted_s3 l t (endpoint, (access, (secret, (region, (path, (type, (password, (ssl, _)))))))) =
        rw (type, t)
          (rw (access, secret, endpoint, ssl, bools l.disable_ssl, region, password, path))

    mounted_azure :
        (l : BackupLocation)
        → l.type ≡ LocationType.azure
        → Mounts (azure_contents l)
        → parse_cloud_cred x w ≡ (w, ok (repository_of l))
    unfolding azure_contents parse_cloud_cred parse_store parse_azure_creds read_cred text_eq
    mounted_azure l t (type, (password, (path, (name, (key, _))))) =
        rw (type, t) (rw (name, key, password, path))

    mounted_google :
        (l : BackupLocation)
        → l.type ≡ LocationType.google
        → Mounts (google_contents l)
        → parse_cloud_cred x w ≡ (w, ok (repository_of l))
    unfolding google_contents parse_cloud_cred parse_store parse_google_creds read_cred text_eq
    mounted_google l t (type, (password, (account, (project, (path, _))))) =
        rw (type, t) (rw (project, account, password, path))

    mounted :
        (t : LocationType) (l : BackupLocation) (m : List (Text × Text))
        → l.type ≡ t
        → credential_contents l ≡ ok m
        → Mounts m
        → parse_cloud_cred x w ≡ (w, ok (repository_of l))
    unfolding credential_contents
    mounted LocationType.s3 l m t h f =
        let e : credential_contents l ≡ ok (s3_contents l) = rw t in
        let h' = sym e ∙ h in
        let k : s3_contents l ≡ m = cc in mounted_s3 l t (subst Mounts (sym k) f)
    mounted LocationType.azure l m t h f =
        let e : credential_contents l ≡ ok (azure_contents l) = rw t in
        let h' = sym e ∙ h in
        let k : azure_contents l ≡ m = cc in mounted_azure l t (subst Mounts (sym k) f)
    mounted LocationType.google l m t h f =
        let e : credential_contents l ≡ ok (google_contents l) = rw t in
        let h' = sym e ∙ h in
        let k : google_contents l ≡ m = cc in mounted_google l t (subst Mounts (sym k) f)
    mounted (LocationType.other y) l m t h f = absurd (ground arith)

-- Where the files of the executor's mount are the entries of the secret that the controller makes of
-- a backup location, and strconv.ParseBool reads what strconv.FormatBool writes, ParseCloudCred reads
-- the location's type, path, password and credentials of that type.
pub parse_cloud_cred-credential_contents :
    {W F : Type 0} (x : ExecutorServices W F) (w : W) (l : BackupLocation) (m : List (Text × Text))
    → ((b : Bool) → x.parse_bool (bool_text b) ≡ ok b)
    → credential_contents l ≡ ok m
    → Mounts x w m
    → parse_cloud_cred x w ≡ (w, ok (repository_of l))
parse_cloud_cred-credential_contents x w l m bools h f = mounted x w bools l.type l m refl h f
