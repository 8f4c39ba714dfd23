-- ===== src/Controller/Secrets/Laws.antt =====
-- Backup locations on their way through a secret.
use kdmp.Base.{List, Text, ◌≡◌, refl, ok, text_eq, arith}
use kdmp.Base.Strings.{lookup_text}
use kdmp.Services.{BackupLocation, LocationType}
use kdmp.Controller.Secrets.{credential_contents, location_of_contents}

-- What the secret is to hold of a location, by the location's type.
abbrev pub SameCredentials : LocationType → BackupLocation → BackupLocation → Type 0
SameCredentials LocationType.s3 a b =
    (a.access_key_id ≡ b.access_key_id)
    × (a.secret_access_key ≡ b.secret_access_key)
    × (a.endpoint ≡ b.endpoint)
    × (a.disable_ssl ≡ b.disable_ssl)
    × (a.region ≡ b.region)
SameCredentials LocationType.azure a b =
    (a.storage_account_name ≡ b.storage_account_name)
    × (a.storage_account_key ≡ b.storage_account_key)
SameCredentials LocationType.google a b =
    (a.project_id ≡ b.project_id) × (a.account_key ≡ b.account_key)
SameCredentials (LocationType.other _) a b = Unit

round_trip :
    (t : LocationType) (l : BackupLocation) (name namespace : Text) (m : List (Text × Text))
    → l.type ≡ t
    → credential_contents l ≡ ok m
    → let b = location_of_contents name namespace m in
      (b.type ≡ t) × (b.path ≡ l.path) × SameCredentials t b l
unfolding credential_contents location_of_contents lookup_text text_eq
round_trip LocationType.s3 l name namespace m t h = ground arith
round_trip LocationType.azure l name namespace m t h = ground arith
round_trip LocationType.google l name namespace m t h = ground arith
round_trip (LocationType.other x) l name namespace m t h = ground arith

-- Where credentials can be stored for a backup location at all, the location that is read back from
-- the secret has the same type, path and credentials of that type.
pub location_of_contents-credential_contents :
    (l : BackupLocation) (name namespace : Text) (m : List (Text × Text))
    → credential_contents l ≡ ok m
    → let b = location_of_contents name namespace m in
      (b.type ≡ l.type) × (b.path ≡ l.path) × SameCredentials l.type b l
location_of_contents-credential_contents l name namespace m h =
    round_trip l.type l name namespace m refl h
