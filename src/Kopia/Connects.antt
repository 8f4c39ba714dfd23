-- ===== src/Kopia/Connects.antt =====
-- A repository is connected to as it was created.
use kdmp.Base.{Bool, List, [], ◌∷◌, Text, codes, ◌≡◌, refl, text_eq}
use mathlib.Core.List.{Perm, perm_append_comm}
use mathlib.Core.List.Perm
use kdmp.Kopia.{create_cmd, connect_cmd}
use kdmp.Kopia.Build.{repository_command}

-- The same words in some order after the name of the sub-command.
abbrev pub SameFlags : List Text → List Text → Type 0
SameFlags us vs =
    (ps : List Text) × (qs : List Text) × (us ≡ codes "repository" ∷ codes "create" ∷ ps)
    × (vs ≡ codes "repository" ∷ codes "connect" ∷ qs)
    × Perm ps qs

swapped : (a b c d : Text) (xs : List Text) → Perm (a ∷ b ∷ c ∷ d ∷ xs) (c ∷ d ∷ a ∷ b ∷ xs)
swapped a b c d xs = Perm.append (perm_append_comm (a ∷ b ∷ []) (c ∷ d ∷ [])) (Perm.refl xs)

pub azure-SameFlags :
    (environ args : List Text) (path name password : Text) (ssl : Bool)
    → SameFlags
        (create_cmd environ
          (record (repository_command (codes "create") path name password (codes "azure") ssl) {
            args = args;
          })).arguments
        (connect_cmd environ
          (record (repository_command (codes "connect") path name password (codes "azure") ssl) {
            args = args;
          })).arguments
unfolding create_cmd connect_cmd text_eq
azure-SameFlags environ args path name password ssl = (
  _,
  _,
  refl,
  refl,
  Perm.append
      (Perm.refl (codes "azure" ∷ codes "--password" ∷ password ∷ codes "--prefix" ∷ name ∷ []))
      (swapped (codes "--log-dir") (codes "/tmp") (codes "--cache-directory") (codes "/tmp")
        (codes "--config-file" ∷ codes "/tmp/kopiconfig" ∷ args)),
)

pub s3-SameFlags :
    (environ args : List Text) (path name password : Text) (ssl : Bool)
    → SameFlags
        (create_cmd environ
          (record (repository_command (codes "create") path name password (codes "s3") ssl) {
            args = args;
          })).arguments
        (connect_cmd environ
          (record (repository_command (codes "connect") path name password (codes "s3") ssl) {
            args = args;
          })).arguments
unfolding create_cmd connect_cmd text_eq
s3-SameFlags environ args path name password ssl = (_, _, refl, refl, Perm.refl _)

pub gcs-SameFlags :
    (environ args : List Text) (path name password : Text) (ssl : Bool)
    → SameFlags
        (create_cmd environ
          (record (repository_command (codes "create") path name password (codes "gcs") ssl) {
            args = args;
          })).arguments
        (connect_cmd environ
          (record (repository_command (codes "connect") path name password (codes "gcs") ssl) {
            args = args;
          })).arguments
unfolding create_cmd connect_cmd text_eq
gcs-SameFlags environ args path name password ssl = (_, _, refl, refl, Perm.refl _)
