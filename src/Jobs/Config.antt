-- ===== src/Jobs/Config.antt =====
-- Settings of the executors' jobs from a config map or the environment, and the resources of their
-- containers: pkg/drivers/utils/utils.go.
use kdmp.Base.{List, [], ◌∷◌, Text, codes, errorf, Result, ok, err, Call, format}
use kdmp.Base.Strings.{join, lookup_text, trim_space}
use kdmp.Base.Results.{return, lift_result, map_error, ◌>>=◌}
use kdmp.Jobs.Batch.{BatchServices, Resources}

-- ToImagePullSecret.
unfoldable pub to_image_pull_secret : Text → List Text
to_image_pull_secret [] = []
to_image_pull_secret (c ∷ name) = (c ∷ name) ∷ []

-- The custom value where there is one.
unfoldable pub or_default : Text → Text → Text
or_default [] default = default
or_default (c ∷ custom) default = c ∷ custom

module _ {W F : Type 0} (b : BatchServices W F) where
  -- GetConfigValue, after the config map was read.
  unfoldable pub config_value : Text → W → Result (List (Text × Text)) → Text
  config_value key w (err _) = b.getenv key w
  config_value key w (ok m) = lookup_text key m

  unfoldable pub get_config_value : Text → Text → Text → W → W × Text
  unfolding config_value
  get_config_value cm ns key w = (
    (b.get_config_map cm ns w).0,
    config_value key (b.get_config_map cm ns w).0 (b.get_config_map cm ns w).1,
  )

  -- strings.TrimSpace(GetConfigValue(…)), or a default where that is empty.
  unfoldable pub trimmed_config_value : Text → Text → Text → Text → W → W × Text
  trimmed_config_value cm ns key default w =
      let (w', v) = get_config_value cm ns key w in (w', or_default (trim_space v) default)

  unfoldable pub kopia_executor_image : Text → Text → W → W × Text
  kopia_executor_image cm ns =
      trimmed_config_value cm ns (codes "KDMP_KOPIAEXECUTOR_IMAGE")
        (join (codes ":") (codes "portworx/kopiaexecutor" ∷ b.git_version ∷ []))

  unfoldable pub kopia_executor_image_secret : Text → Text → W → W × Text
  kopia_executor_image_secret cm ns =
      trimmed_config_value cm ns (codes "KDMP_KOPIAEXECUTOR_IMAGE_SECRET") []

  unfoldable pub restic_executor_image : W → Text
  restic_executor_image w =
      or_default (trim_space (b.getenv (codes "KDMP_RESTICEXECUTOR_IMAGE") w))
        (join (codes ":") (codes "portworx/resticexecutor" ∷ b.git_version ∷ []))

  unfoldable pub restic_executor_image_secret : W → Text
  restic_executor_image_secret w =
      trim_space (b.getenv (codes "KDMP_RESTICEXECUTOR_IMAGE_SECRET") w)

  unfoldable pub rsync_image : W → Text
  rsync_image w =
      or_default (trim_space (b.getenv (codes "KDMP_RSYNC_IMAGE") w)) (codes "eeacms/rsync")

  unfoldable pub rsync_image_secret : W → Text
  rsync_image_secret w = trim_space (b.getenv (codes "KDMP_RSYNC_IMAGE_SECRET") w)

  unfoldable pub rsync_command_flags : W → Text
  rsync_command_flags w = trim_space (b.getenv (codes "KDMP_RSYNC_FLAGS") w)

  unfoldable pub rsync_openshift_scc : W → Text
  rsync_openshift_scc w = trim_space (b.getenv (codes "KDMP_RSYNC_OPENSHIFT_SCC") w)

  -- A quantity, or an error that names what it is for.
  abbrev parsed_quantity : Text → Text → Result b.Quantity
  parsed_quantity what q =
      map_error (λ e. errorf (format "failed to parse %q %s: %s" (q ∷ what ∷ e.text ∷ [])))
        (b.parse_quantity q)

  unfoldable pub to_resource_requirements :
      Text → Text → Text → Text → Call W (Resources b.Quantity)
  to_resource_requirements request_cpu request_mem limit_cpu limit_mem = do
    rc ← lift_result (parsed_quantity (codes "requestCPU") request_cpu)
    rm ← lift_result (parsed_quantity (codes "requestMemory") request_mem)
    lc ← lift_result (parsed_quantity (codes "limitCPU") limit_cpu)
    lm ← lift_result (parsed_quantity (codes "limitMemory") limit_mem)
    return (record { request_cpu = rc; request_memory = rm; limit_cpu = lc; limit_memory = lm })

  -- A setting as a step of a chain.
  abbrev pub setting : {A : Type 0} → (W → W × A) → Call W A
  setting f w = let (w', a) = f w in (w', ok a)

  unfoldable pub kopia_resource_requirements : Text → Text → Call W (Resources b.Quantity)
  kopia_resource_requirements cm ns = do
    rc ← setting (trimmed_config_value cm ns (codes "KDMP_KOPIAEXECUTOR_REQUEST_CPU") (codes "0.1"))
    rm ←
        setting
          (trimmed_config_value cm ns (codes "KDMP_KOPIAEXECUTOR_REQUEST_MEMORY") (codes "700Mi"))
    lc ← setting (trimmed_config_value cm ns (codes "KDMP_KOPIAEXECUTOR_LIMIT_CPU") (codes "0.2"))
    lm ←
        setting (trimmed_config_value cm ns (codes "KDMP_KOPIAEXECUTOR_LIMIT_MEMORY") (codes "1Gi"))
    to_resource_requirements rc rm lc lm

  unfoldable pub restic_resource_requirements : Call W (Resources b.Quantity)
  restic_resource_requirements w =
      to_resource_requirements
        (or_default (b.getenv (codes "KDMP_RESTICEXECUTOR_REQUEST_CPU") w) (codes "1"))
        (or_default (b.getenv (codes "KDMP_RESTICEXECUTOR_REQUEST_MEMORY") w) (codes "700Mi"))
        (or_default (b.getenv (codes "KDMP_RESTICEXECUTOR_LIMIT_CPU") w) (codes "2"))
        (or_default (b.getenv (codes "KDMP_RESTICEXECUTOR_LIMIT_MEMORY") w) (codes "1Gi")) w

  unfoldable pub rsync_resource_requirements : Call W (Resources b.Quantity)
  rsync_resource_requirements w =
      to_resource_requirements
        (or_default (b.getenv (codes "KDMP_RSYNC_REQUEST_CPU") w) (codes "1"))
        (or_default (b.getenv (codes "KDMP_RSYNC_REQUEST_MEMORY") w) (codes "700Mi"))
        (or_default (b.getenv (codes "KDMP_RSYNC_LIMIT_CPU") w) (codes "2"))
        (or_default (b.getenv (codes "KDMP_RSYNC_LIMIT_MEMORY") w) (codes "1Gi")) w
