-- ===== src/Tests/Executor.antt =====
-- The executors' theorems at one input: a cluster with one volume backup, and processes that end
-- without a failure after the looks that are counted.
mod Runs
use kdmp.Base.{
  ℕ, zero, suc, Bool, true, false, Option, none, some, List, [], ◌∷◌, Text, codes, Error, errorf,
  Result, ok, err, Call, ◌≡◌, ◌≢◌, ◌↔◌, ◌⊎◌, inl, inr, refl, arith, ◌==◌, is_empty, text_eq,
  if◌then◌else◌, not_found,
}
use kdmp.Base.Int.{ℤ, pos, is_zero}
use kdmp.Api.{VolumeBackup}
use kdmp.Services.{BackupLocation, LocationType}
use kdmp.Controller.Secrets.{bool_text, credential_contents, google_contents}
use kdmp.Drivers.{JobConditionType}
use kdmp.Executor.{
  ExecutorServices, Floats, Flags, Repository, Store, Exit, BackupSummary, Status, S3Config,
}
use kdmp.Executor.Outcomes.{returned, failed}
use kdmp.Executor.Credentials
use kdmp.Executor.Credentials.Mounted.{Mounts, repository_of, parse_cloud_cred-credential_contents}
use kdmp.Tests.Services.{missing, unavailable, twice, twice_laws}

-- The looks that a process takes, and the volume backup that is stored.
abbrev World : Type 0
World = ℕ × VolumeBackup ℕ

abbrev location : BackupLocation
location = record {
  name = codes "gcs";
  namespace = codes "app";
  type = LocationType.google;
  path = codes "bucket";
  repository_password = codes "secret";
  endpoint = [];
  access_key_id = [];
  secret_access_key = [];
  region = [];
  disable_ssl = false;
  storage_account_name = [];
  storage_account_key = [];
  project_id = codes "project";
  account_key = codes "key";
}

-- A file of the mounted secret.
unfoldable file : Text → List (Text × Text) → Result Text
file path [] = err missing
file path ((key, v) ∷ rest) =
    let found = file path rest in if text_eq path (Credentials.cred_path key) then ok v else found

-- strconv.ParseBool, of what this program writes.
unfoldable parse_bool : Text → Result Bool
parse_bool t =
    if text_eq t (codes "true")
    then ok true
    else if text_eq t (codes "false")
    then ok false
    else err (errorf (codes "invalid syntax"))

unfoldable look : World → World × Option Exit
look (zero, vb) = (
  (zero, vb),
  some (record { failure = none; out = codes "{}"; err_out = codes "Connected to repository" }),
)
look (suc n, vb) = ((n, vb), none)

abbrev services : ExecutorServices World ℕ
services = record {
  environ = [];
  hostname = λ w. ok (codes "node-1");
  now = λ w. codes "now";
  print_int = λ i. codes "0";
  parse_bool = parse_bool;
  unmarshal =
      λ t. ok (record { id = codes "k1"; total_file_size = 4096; fatal_error_count = pos 0 });
  glob = λ t w. ok [];
  read_file = λ path w. (w, file path (google_contents location));
  write_file = λ path t w. (w, ok tt);
  start = λ c w. (w, ok tt);
  look = look;
  get_volume_backup = λ name ns w. (w, ok w.1);
  create_volume_backup = λ annotations vb w. ((w.0, vb), ok tt);
  update_volume_backup = λ vb w. ((w.0, vb), ok tt);
  get_volume_backup_delete = λ name ns w. (w, err missing);
  update_volume_backup_delete = λ vbd w. (w, err unavailable);
  get_maintenance = λ name ns w. (w, err missing);
  update_maintenance = λ m w. (w, err unavailable);
  get_backup_location = λ name ns w. (w, ok location);
  get_bucket = λ l w. (w, ok tt);
  blob_exists = λ l prefix key w. (w, ok true);
  list_blobs = λ l prefix w. (w, (codes "app-db/" ∷ [], none));
}

abbrev floats : Floats ℕ
floats = record {
  zero = 0;
  hundred = 100;
  parse_float = λ t. 0;
  times_power = λ n f. f;
  to_uint = λ f. f;
}

abbrev flags : Flags
flags = record {
  volume_backup_name = codes "export-1";
  namespace = codes "app";
  kopia_repo = codes "app-db";
  compression = [];
  backup_location_name = codes "gcs";
  backup_location_namespace = codes "app";
}

abbrev empty_backup : VolumeBackup ℕ
empty_backup = record {
  name = codes "export-1";
  namespace = codes "app";
  backup_location = record {
    api_version = [];
    kind = [];
    namespace = codes "app";
    name = codes "gcs";
  };
  repository = codes "generic-backup/app-db/";
  progress_percentage = 0;
  total_bytes = 0;
  total_bytes_processed = 0;
  snapshot_id = [];
  last_known_error = [];
}

read_bool : (b : Bool) → parse_bool (bool_text b) ≡ ok b
unfolding parse_bool text_eq
read_bool true = refl
read_bool false = refl

contents : credential_contents location ≡ ok (google_contents location)
unfolding credential_contents
contents = refl

mounts : Mounts services (0, empty_backup) (google_contents location)
unfolding google_contents file text_eq
mounts = (refl, (refl, (refl, (refl, (refl, tt)))))

parse_cloud_cred-credential_contents_example :
    Credentials.parse_cloud_cred services (0, empty_backup)
    ≡ ((0, empty_backup), ok (repository_of location))
parse_cloud_cred-credential_contents_example =
    parse_cloud_cred-credential_contents services (0, empty_backup) location
      (google_contents location) read_bool contents mounts
