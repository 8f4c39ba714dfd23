-- ===== src/Controller/Secrets.antt =====
-- The secrets of reconcile.go: the credentials of the backup location for the job's pod, the
-- certificate of the object store, and a backup location read back from such a secret.
pub mod Laws
use kdmp.Base.{
  Bool, true, false, Option, none, some, List, [], ◌∷◌, Text, codes, Error, errorf, Call, format,
  Result, ok, err, is_already_exists, is_empty, text_eq, if◌then◌else◌,
}
use kdmp.Base.Results.{return, raise, lift_result, wrap, ◌>>=◌, ◌>>◌}
use kdmp.Base.Strings.{lookup_text, join_path}
use kdmp.Services.{Cluster, BackupLocation, LocationType, Secret}

-- storkapi.BackupLocationType as a string.
abbrev pub location_type_text : LocationType → Text
location_type_text LocationType.s3 = codes "s3"
location_type_text LocationType.azure = codes "azure"
location_type_text LocationType.google = codes "google"
location_type_text (LocationType.other t) = t

-- strconv.FormatBool.
abbrev pub bool_text : Bool → Text
bool_text true = codes "true"
bool_text false = codes "false"

-- The data of createS3Secret, createGoogleSecret and createAzureSecret.
unfoldable pub s3_contents : BackupLocation → List (Text × Text)
s3_contents l =
    (codes "endpoint", l.endpoint)
    ∷ (codes "accessKey", l.access_key_id)
    ∷ (codes "secretAccessKey", l.secret_access_key)
    ∷ (codes "region", l.region)
    ∷ (codes "path", l.path)
    ∷ (codes "type", location_type_text l.type)
    ∷ (codes "password", l.repository_password)
    ∷ (codes "disablessl", bool_text l.disable_ssl)
    ∷ []

unfoldable pub google_contents : BackupLocation → List (Text × Text)
google_contents l =
    (codes "type", location_type_text l.type)
    ∷ (codes "password", l.repository_password)
    ∷ (codes "accountkey", l.account_key)
    ∷ (codes "projectid", l.project_id)
    ∷ (codes "path", l.path)
    ∷ []

unfoldable pub azure_contents : BackupLocation → List (Text × Text)
azure_contents l =
    (codes "type", location_type_text l.type)
    ∷ (codes "password", l.repository_password)
    ∷ (codes "path", l.path)
    ∷ (codes "storageaccountname", l.storage_account_name)
    ∷ (codes "storageaccountkey", l.storage_account_key)
    ∷ []

-- The switch of CreateCredentialsSecret.
unfoldable pub credential_contents : BackupLocation → Result (List (Text × Text))
unfolding s3_contents google_contents azure_contents
credential_contents l = elim l.type [
  | LocationType.s3 ↦ ok (s3_contents l)
  | LocationType.google ↦ ok (google_contents l)
  | LocationType.azure ↦ ok (azure_contents l)
  | LocationType.other t ↦ err (errorf (format "unsupported backup location: %v" (t ∷ [])))
]

-- A location of a type and a path, with no credentials.
abbrev pub bare_location : Text → Text → LocationType → Text → BackupLocation
bare_location name namespace type path = record {
  name = name;
  namespace = namespace;
  type = type;
  path = path;
  repository_password = [];
  endpoint = [];
  access_key_id = [];
  secret_access_key = [];
  region = [];
  disable_ssl = false;
  storage_account_name = [];
  storage_account_key = [];
  project_id = [];
  account_key = [];
}

-- getBackuplocationFromSecret, after the secret was read.
unfoldable pub location_of_contents : Text → Text → List (Text × Text) → BackupLocation
location_of_contents name namespace m =
    if text_eq type (codes "s3")
    then record (bare_location name namespace LocationType.s3 path) {
      access_key_id = lookup_text (codes "accessKey") m;
      secret_access_key = lookup_text (codes "secretAccessKey") m;
      endpoint = lookup_text (codes "endpoint") m;
      disable_ssl = text_eq (lookup_text (codes "disablessl") m) (codes "true");
      region = lookup_text (codes "region") m;
    }
    else if text_eq type (codes "azure")
    then record (bare_location name namespace LocationType.azure path) {
      storage_account_name = lookup_text (codes "storageaccountname") m;
      storage_account_key = lookup_text (codes "storageaccountkey") m;
    }
    else if text_eq type (codes "google")
    then record (bare_location name namespace LocationType.google path) {
      project_id = lookup_text (codes "projectid") m;
      account_key = lookup_text (codes "accountkey") m;
    }
    else bare_location name namespace (LocationType.other []) path
  where
    type : Text
    type = lookup_text (codes "type") m

    path : Text
    path = lookup_text (codes "path") m

module _ (k : Cluster) where
  unfoldable pub get_backuplocation_from_secret : Text → Text → Call k.World BackupLocation
  get_backuplocation_from_secret name namespace = do
    m ← k.get_secret name namespace
    return (location_of_contents name namespace m)

  created : Result (Unit {0}) → Result (Unit {0})
  created (ok _) = ok tt
  created (err e) = if is_already_exists e then ok tt else err e

  -- createJobSecret.
  unfoldable pub create_job_secret :
      Text → Text → List (Text × Text) → List (Text × Text) → Call k.World Unit
  unfolding created
  create_job_secret name namespace contents labels w = (x.0, created x.1)
    where
      x : k.World × Result (Unit {0})
      x =
          k.create_secret
            (record {
              name = name;
              namespace = namespace;
              labels = labels;
              annotations = (codes "stork.libopenstorage.org/skip-resource", codes "true") ∷ [];
              contents = contents;
            })
            w

  -- readBackupLocation.
  unfoldable pub read_backup_location : Text → Text → Text → Call k.World BackupLocation
  read_backup_location name namespace file_path =
      if is_empty name
      then (do f ← k.read_file file_path; lift_result (k.decode_backup_location f))
      else k.get_backup_location name (if is_empty namespace then codes "default" else namespace)

  unfoldable pub create_credentials_secret :
      Text → Text → Text → Text → List (Text × Text) → Call k.World Unit
  create_credentials_secret secret_name bl_name bl_namespace namespace labels = do
    location ← read_backup_location bl_name bl_namespace []
    contents ← lift_result (credential_contents location)
    create_job_secret secret_name namespace contents labels

  unfoldable pub create_certificate_secret : Text → Text → List (Text × Text) → Call k.World Unit
  create_certificate_secret secret_name namespace labels w =
      if is_empty dir
      then (w, ok tt)
      else (do
        certificate ←
            wrap (λ e. errorf (format "failed reading data from file %s : %s" (dir ∷ e.text ∷ [])))
              (k.read_file (join_path dir (codes "public.crt")))
        create_job_secret secret_name namespace ((codes "public.crt", certificate) ∷ []) labels)
          w
    where
      dir : Text
      dir = k.getenv (codes "SSL_CERT_DIR") w
