-- ===== src/Executor/Maintenance/Objects.antt =====
-- What the maintenance of pkg/executor/kopia/maintenance.go reads and writes: the repositories of a
-- backup location, and the object that keeps what became of them.
use kdmp.Base.{
  Bool, true, false, Option, none, some, List, [], ◌∷◌, ◌++◌, Text, codes, Error, errorf, Result,
  ok, err, Call, String, format, text_eq, if◌then◌else◌,
}
use kdmp.Base.Results.{wrap, ◌>>=◌}
use kdmp.Services.{BackupLocation}
use kdmp.Executor.{
  ExecutorServices, MaintenanceResult, RepoMaintenanceStatus, BackupLocationMaintenance,
}

-- `m[key] = status`.
unfoldable pub put_status :
    Text
    → RepoMaintenanceStatus
    → List (Text × RepoMaintenanceStatus)
    → List (Text × RepoMaintenanceStatus)
put_status k v [] = (k, v) ∷ []
put_status k v ((j, u) ∷ m) = if text_eq j k then (k, v) ∷ m else (j, u) ∷ put_status k v m

abbrev pub full_maintenance_type : Text
full_maintenance_type = codes "full"

-- What updateBackupLocationMaintenace changes.
unfoldable pub with_repo_status :
    Text → Text → RepoMaintenanceStatus → BackupLocationMaintenance → BackupLocationMaintenance
unfolding put_status
with_repo_status type repo_name s m =
    if text_eq type full_maintenance_type
    then record m { full_status = put_status repo_name s m.full_status }
    else record m { quick_status = put_status repo_name s m.quick_status }

unfoldable pub get_backup_path_with_repo_name : Text → Text
get_backup_path_with_repo_name repo_name = codes "generic-backup" ++ (b'/' ∷ repo_name)

-- The name and the namespace of the BackupLocationMaintenance.
module _ {W F : Type 0} (x : ExecutorServices W F) (name namespace : Text) where
  abbrev maintenance_error : String → Error → Error
  maintenance_error msg e = errorf (format msg (namespace ∷ name ∷ e.text ∷ []))

  unfoldable pub update_backup_location_maintenance :
      Text → MaintenanceResult → Text → Text → Call W Unit
  update_backup_location_maintenance type status repo_name reason = do
    m ←
        wrap (maintenance_error "failed in getting backuplocationmaintenance CR [%v:%v]: %v")
          (x.get_maintenance name namespace)
    λ w.
        wrap (maintenance_error "failed in updating backuplocation maintenace CR [%v:%v]: %v")
          (x.update_maintenance (
            with_repo_status type repo_name
              (record { last_run_timestamp = x.now w; status = status; reason = reason }) m))
          w

module _ {W F : Type 0} (x : ExecutorServices W F) where
  abbrev kept : Text → Result Bool → List Text → List Text
  kept key (ok true) keys = key ∷ keys
  kept key (ok false) keys = keys
  kept key (err _) keys = keys

  -- getRepoList's loop over the keys below a prefix: those that hold a repository's file.
  unfoldable pub repo_list : BackupLocation → Text → List Text → W → W × List Text
  repo_list bl prefix [] w = (w, [])
  repo_list bl prefix (key ∷ keys) w =
      let (w₁, b) = x.blob_exists bl (prefix ++ key) (codes "kopia.repository") w in
      let (w₂, rest) = repo_list bl prefix keys w₁ in (w₂, kept key b rest)

  abbrev listed : Option Error → List Text → Result (List Text)
  listed none keys = ok keys
  listed (some e) keys = err e

  -- getRepoList: an error of the iterator is the result, after what came before it.
  unfoldable pub get_repo_list : BackupLocation → Text → Call W (List Text)
  unfolding repo_list
  get_repo_list bl prefix w =
      let (w₁, (keys, e)) = x.list_blobs bl prefix w in
      let (w₂, repos) = repo_list bl prefix keys w₁ in (w₂, listed e repos)
