-- ===== src/Kopia/Output.antt =====
-- What the executors of pkg/kopia read from the output of a command.
pub mod Exists
use kdmp.Base.{
  ℕ, Bool, true, false, Option, none, some, List, [], ◌∷◌, Text, codes, Error, errorf,
  already_repo_exist, Result, ok, err, is_empty, format, if◌then◌else◌, ◌==◌,
}
use kdmp.Base.Int.{ℤ, is_zero}
use kdmp.Executor.{BackupSummary, Floats}
use kdmp.Base.Strings.{split, contains, trim_both}

-- executor.Error, by its text.
abbrev pub cmd_error : Text → Error
cmd_error reason = errorf (format "%v: Cmd Output [%v] Cmd Error [%v]" (reason ∷ [] ∷ [] ∷ []))

abbrev pub newline : ℕ
newline = 10

-- The checks of getBackupSummary on what json.Unmarshal gives, with strconv.Itoa.
unfoldable pub checked_summary : (ℤ → Text) → Result BackupSummary → Result BackupSummary
checked_summary itoa (err e) =
    err (cmd_error (format "failed to parse backup summary: %v" (e.text ∷ [])))
checked_summary itoa (ok s) =
    if is_empty s.id
    then err (cmd_error (codes "failed to backup as snapshot ID is not present"))
    else if is_zero s.fatal_error_count
    then ok s
    else err (
        cmd_error (
          format "failed to backup as FatalErrorCount is %v for snapshot id: %v: %v" (
            itoa s.fatal_error_count
            ∷ s.id
            ∷ codes "internal error, check backup pod logs for more details"
            ∷ [])))

-- getBackupSummary, over strconv.Itoa and json.Unmarshal: the first line of the output.
unfoldable pub get_backup_summary :
    (ℤ → Text) → (Text → Result BackupSummary) → Text → Result BackupSummary
unfolding checked_summary
get_backup_summary itoa unmarshal out = elim (split newline out) [
  | [] ↦ err (cmd_error (codes "backup summary not available"))
  | line ∷ _ ↦ checked_summary itoa (unmarshal line)
]

abbrev pub already_repo_exist_text : Text
already_repo_exist_text = codes "found existing data in storage location"

-- ErrAlreadyRepoExist.
abbrev pub already_repo_exist_error : Error
already_repo_exist_error = record { kind = already_repo_exist; text = already_repo_exist_text }

any_contains : List Text → Text → Bool
any_contains [] msg = false
any_contains (line ∷ lines) msg =
    let rest = any_contains lines msg in if contains line msg then true else rest

-- parseStdErr of create.go, which always gives an error.
unfoldable pub parse_std_err : Text → Error
unfolding any_contains
parse_std_err std_err =
    if any_contains (split newline std_err) already_repo_exist_text
    then already_repo_exist_error
    else errorf (format "error while creating repository: %v" (std_err ∷ []))

-- getInitSummary and getConnectSummary; the response carries nothing but Created.
unfoldable pub get_init_summary : Text → Result (Unit {0})
get_init_summary err_bytes =
    if contains err_bytes (codes "Kopia will perform quick maintenance")
    then ok tt
    else err (errorf (codes "failed to create repository"))

unfoldable pub get_connect_summary : Text → Result (Unit {0})
get_connect_summary err_bytes =
    if contains err_bytes (codes "Connected to repository")
    then ok tt
    else err (errorf (codes "failed to connect to repository"))

-- modStrings[len(modStrings)-2]: none where the index is out of range, which panics.
second_last : List Text → Option Text
second_last [] = none
second_last (t ∷ []) = none
second_last (t ∷ u ∷ []) = some t
second_last (t ∷ u ∷ v ∷ ts) = second_last (u ∷ v ∷ ts)

-- The exponent of ten of the unit that a line names.
unfoldable pub unit_power : Text → ℕ
unit_power line =
    if contains line (codes "KB")
    then 3
    else if contains line (codes "MB")
    then 6
    else if contains line (codes "GB")
    then 9
    else if contains line (codes "TB")
    then 12
    else if contains line (codes "PB")
    then 15
    else 0

module _ {F : Type 0} (floats : Floats F) where
  -- The size that a line with the message reports.
  unfoldable pub line_size : Text → Option F
  unfolding second_last unit_power
  line_size line = elim (second_last (split b' ' line)) [
    | none ↦ none
    | some word ↦ some (
        floats.times_power (unit_power line)
          (floats.parse_float (trim_both (λ c. c == b'.') (trim_both (λ c. c == b'(') word))))
  ]

  -- The loop over the lines, from the size so far.
  unfoldable pub restored_size : F → List Text → Option F
  restored_size size [] = some size
  restored_size size (line ∷ lines) =
      if contains line (codes "Restored")
      then elim (line_size line) [ none ↦ none | some size' ↦ restored_size size' lines ]
      else restored_size size lines
