-- ===== src/Executor/Repositories/Connects.antt =====
-- The commands that create a repository and connect to it.
use kdmp.Base.{List, Text, codes, Result, ok, ◌≡◌, ◌≢◌, refl, is_empty, Bool-cases, inl, inr}
use mathlib.Core.Path.{subst₂}
use kdmp.Executor.{Repository, Store}
use kdmp.Executor.Repositories.{populate_access_details, kopia_provider_type, disable_ssl}
use kdmp.Kopia.{Command, create_cmd, connect_cmd}
use kdmp.Kopia.Build.{get_create_command, get_connect_command, repository_command}
use kdmp.Kopia.Connects.{SameFlags, azure-SameFlags, s3-SameFlags, gcs-SameFlags}

abbrev create_of : Repository → Result Command
create_of repo =
    get_create_command repo.path repo.name repo.password (kopia_provider_type repo.store)
      (disable_ssl repo.store)

abbrev connect_of : Repository → Result Command
connect_of repo =
    get_connect_command repo.path repo.name repo.password (kopia_provider_type repo.store)
      (disable_ssl repo.store)

-- What the two functions give.
abbrev made : Text → Repository → Command
made name repo =
    repository_command name repo.path repo.name repo.password (kopia_provider_type repo.store)
      (disable_ssl repo.store)

create-made :
    (repo : Repository) (c : Command) → create_of repo ≡ ok c → made (codes "create") repo ≡ c
unfolding get_create_command
create-made repo c h = elim (Bool-cases (is_empty repo.name)) [
  | inl p ↦ (let h' = rw p at h in cc)
  | inr p ↦ (let h' : ok (made (codes "create") repo) ≡ ok c = rw p at h in cc)
]

connect-made :
    (repo : Repository) (c : Command) → connect_of repo ≡ ok c → made (codes "connect") repo ≡ c
unfolding get_connect_command
connect-made repo c h = elim (Bool-cases (is_empty repo.name)) [
  | inl p ↦ (let h' = rw p at h in cc)
  | inr p ↦ (let h' : ok (made (codes "connect") repo) ≡ ok c = rw p at h in cc)
]

made-SameFlags :
    (environ : List Text) (repo : Repository) (s : Store)
    → repo.store ≡ s
    → s ≢ Store.unset
    → SameFlags
        (create_cmd environ (populate_access_details (made (codes "create") repo) repo)).arguments
        (connect_cmd environ (populate_access_details (made (codes "connect") repo) repo)).arguments
unfolding populate_access_details kopia_provider_type
made-SameFlags environ repo (Store.s3 c) p n =
    rw p (s3-SameFlags environ _ repo.path repo.name repo.password _)
made-SameFlags environ repo (Store.google c) p n =
    rw p (gcs-SameFlags environ _ repo.path repo.name repo.password _)
made-SameFlags environ repo (Store.azure c) p n =
    rw p (azure-SameFlags environ _ repo.path repo.name repo.password _)
made-SameFlags environ repo Store.unset p n = absurd (n refl)

-- For a repository with a store, the command that creates it and the one that connects to it, where
-- both are made, are called with the same words in some order after "repository create" and
-- "repository connect": the same provider, bucket, prefix, password and access details.
pub connect_cmd-create_cmd :
    (environ : List Text) (repo : Repository) (c d : Command)
    → get_create_command repo.path repo.name repo.password
        (kopia_provider_type repo.store)
        (disable_ssl repo.store)
      ≡ ok c
    → get_connect_command repo.path repo.name repo.password
        (kopia_provider_type repo.store)
        (disable_ssl repo.store)
      ≡ ok d
    → repo.store ≢ Store.unset
    → SameFlags
        (create_cmd environ (populate_access_details c repo)).arguments
        (connect_cmd environ (populate_access_details d repo)).arguments
connect_cmd-create_cmd environ repo c d p q n =
    subst₂
      (λ u v.
        SameFlags (create_cmd environ (populate_access_details u repo)).arguments
          (connect_cmd environ (populate_access_details v repo)).arguments)
      (create-made repo c p) (connect-made repo d q) (made-SameFlags environ repo repo.store refl n)
