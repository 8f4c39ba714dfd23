-- ===== src/Drivers/Name.antt =====
-- The known drivers of pkg/drivers/drivers.go, by name.
use kdmp.Base.{Text, codes}

abbrev pub rsync : Text
rsync = codes "rsync"

abbrev pub restic_backup : Text
restic_backup = codes "resticbackup"

abbrev pub restic_restore : Text
restic_restore = codes "resticrestore"

abbrev pub kopia_backup : Text
kopia_backup = codes "kopiabackup"

abbrev pub kopia_restore : Text
kopia_restore = codes "kopiarestore"

abbrev pub kopia_delete : Text
kopia_delete = codes "kopiadelete"

abbrev pub kopia_maintenance : Text
kopia_maintenance = codes "kopiamaintenance"
