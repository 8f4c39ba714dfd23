-- ===== src/Executor/Backup/Saved.antt =====
-- What a kopia backup has done when it ends without an error.
use kdmp.Base.{
  ℕ, Bool, true, false, Option, none, some, [], ◌∷◌, Text, Error, Result, ok, err, ◌≡◌, refl, sym,
  ap, ◌∙◌, arith, is_empty, Result-cases, Option-cases, ◌⊎◌, inl, inr, if_rule, Call, if◌then◌else◌,
}
use kdmp.Base.Int.{is_zero}
use kdmp.Base.Results.{wrap, bind_ok, wrap_ok}
use kdmp.Api.{VolumeBackup}
use kdmp.Services.{Retry}
use kdmp.Executor.{ExecutorServices, Floats, Flags, Repository, Status, Exit, BackupSummary}
use kdmp.Executor.Outcomes.{
  returned, run_call, run_result, rephrase, handle, with_error, bind_returned, rephrase_returned,
  run_call_returned, prefixed,
}
use kdmp.Executor.Credentials.{parse_cloud_cred}
use kdmp.Executor.VolumeBackups.{write_volume_backup_status, with_status, about}
use kdmp.Executor.Repositories.{
  write_backup_status, frame_backup_path, is_repository_exists, run_kopia_repository_connect,
}
use kdmp.Executor.Backup.{
  run_backup, run_kopia_backup, backup_with, backup_repository, create_backup_object, named,
  type_text, prepare_repository, connect_failed, compress,
}
use kdmp.Kopia.Build.{get_backup_command}
use kdmp.Kopia.Output.{get_backup_summary, checked_summary, newline}
use kdmp.Kopia.Executors.{State, Executor, plain_status, backup_status, summarized}
use kdmp.Kopia.Runs.{new_backup_executor, run, settled, backup_settle}
use kdmp.Kopia.Runs.Waiting.{await-Final, run-started}

checked_summary-ok :
    (itoa : kdmp.Base.Int.ℤ → Text) (z : Result BackupSummary) (s : BackupSummary)
    → checked_summary itoa z ≡ ok s
    → (is_empty s.id ≡ false) × (is_zero s.fatal_error_count ≡ true)
unfolding checked_summary
checked_summary-ok itoa (err e) s h = cc
checked_summary-ok itoa (ok t) s h = ground arith

get_backup_summary-ok :
    (itoa : kdmp.Base.Int.ℤ → Text) (unmarshal : Text → Result BackupSummary) (out : Text)
    (s : BackupSummary)
    → get_backup_summary itoa unmarshal out ≡ ok s
    → (is_empty s.id ≡ false) × (is_zero s.fatal_error_count ≡ true)
unfolding get_backup_summary
get_backup_summary-ok itoa unmarshal out s h = go (kdmp.Base.Strings.split newline out) h
  where
    go :
        (lines : kdmp.Base.List Text)
        → ◌≡◌ {A = Result BackupSummary}
            (elim lines [
              | [] ↦
                  err (kdmp.Kopia.Output.cmd_error (kdmp.Base.codes "backup summary not available"))
              | line ∷ _ ↦ checked_summary itoa (unmarshal line)
            ])
            (ok s)
        → (is_empty s.id ≡ false) × (is_zero s.fatal_error_count ≡ true)
    go [] h' = cc
    go (line ∷ ls) h' = checked_summary-ok itoa (unmarshal line) s h'

module _ {W F : Type 0} (x : ExecutorServices W F) (floats : Floats F) (r : Retry)
    (flags : Flags) where
  -- The process was seen to have ended without a failure, and what it wrote first is a summary with
  -- the identifier of a snapshot and no fatal error.
  abbrev pub Snapshot : BackupSummary → Type 0
  Snapshot s =
      (w w' : W) × (exit : Exit) × (x.look w ≡ (w', some exit))
      × (exit.failure ≡ none)
      × (get_backup_summary x.print_int x.unmarshal exit.out ≡ ok s)

  -- The status of such an end.
  abbrev pub finished : BackupSummary → Status F
  finished s = record (plain_status floats true none) {
    progress_percentage = floats.hundred;
    total_bytes_processed = s.total_file_size;
    total_bytes = s.total_file_size;
    snapshot_id = s.id;
  }

  -- A state whose summary is that of a snapshot.
  abbrev Sound : State BackupSummary → Type 0
  Sound st = (s : BackupSummary) → st.summary ≡ some s → Snapshot s

  summarized-Sound :
      (w w' : W) (exit : Exit) (st : State BackupSummary) (z : Result BackupSummary)
      → x.look w ≡ (w', some exit)
      → exit.failure ≡ none
      → get_backup_summary x.print_int x.unmarshal exit.out ≡ z
      → Sound st
      → Sound (summarized z st)
  summarized-Sound w w' exit st (ok t) l p q i s h =
      let k : t ≡ s = cc in (w, w', exit, l, p, q ∙ ap ok k)
  summarized-Sound w w' exit st (err e) l p q i s h = i s h

  settle-Sound :
      (w w' : W) (exit : Exit) (st : State BackupSummary) (f : Option Error)
      → exit.failure ≡ f
      → x.look w ≡ (w', some exit)
      → Sound st
      → Sound (backup_settle x floats exit st)
  unfolding backup_settle
  settle-Sound w w' exit st (some f) p l i s h = i s (rw p at h)
  settle-Sound w w' exit st none p l i s h =
      summarized-Sound w w' exit st (get_backup_summary x.print_int x.unmarshal exit.out) l p refl i
        s (rw p at h)

  settled-Sound :
      (e : Executor BackupSummary (Status F))
      → e.settle ≡ backup_settle x floats
      → (w w' : W) (o : Option Exit) (st : State BackupSummary) → x.look w ≡ (w', o)
      → Sound st
      → Sound (settled x e o st)
  unfolding settled
  settled-Sound e q w w' none st l i = i
  settled-Sound e q w w' (some exit) st l i =
      if_rule Sound st.waiting
        (rw q (settle-Sound w w' exit (record st { err_out = exit.err_out }) exit.failure refl l i))
        i

  backup_status-final :
      (st : State BackupSummary) (e : Option Error) (z : Option BackupSummary) (status : Status F)
      → st.last_error ≡ e
      → st.summary ≡ z
      → some (backup_status floats st) ≡ some status
      → status.last_known_error ≡ none
      → status.done ≡ true
      → (s : BackupSummary) × (st.summary ≡ some s) × (status ≡ finished s)
  unfolding backup_status
  backup_status-final st (some e) z status p q h n d = let h' = rw p at h in ground arith
  backup_status-final st none none status p q h n d = let h' = rw (p, q) at h in ground arith
  backup_status-final st none (some s) status p q h n d =
      let h' : some (finished s) ≡ some status = rw (p, q) at h in (s, q, cc)

  -- What runKopiaBackup has done when it returns: a snapshot was taken, and its status was written
  -- last.
  abbrev pub Saved : W → Type 0
  Saved w' =
      (s : BackupSummary) × Snapshot s
      × (is_empty s.id ≡ false)
      × (is_zero s.fatal_error_count ≡ true)
      × ((w : W) × (write_backup_status x floats r flags (finished s) w ≡ (w', ok tt)))

  saved :
      (st : State BackupSummary) (status : Status F) (w w' : W)
      → Sound st
      → (s : BackupSummary) × (st.summary ≡ some s) × (status ≡ finished s)
      → write_backup_status x floats r flags status w ≡ (w', ok tt)
      → Saved w'
  saved st status w w' sound (s, p, q) h =
      let (w₁, w₂, exit, l, f, g) = sound s p in
      let (i, n) = get_backup_summary-ok x.print_int x.unmarshal exit.out s g in
      (s, (w₁, w₂, exit, l, f, g), i, n, (w, rw q at h))

  run_kopia_backup-Saved :
      (looks : ℕ) (repo : Repository) (source_path : Text) (w w' : W)
      → run_kopia_backup x floats r flags looks repo source_path w ≡ (w', returned tt)
      → Saved w'
  unfolding run_kopia_backup
  run_kopia_backup-Saved looks repo source_path w w' h =
      let (w₁, c, p₁, h₁) =
        bind_returned
          (run_result (
            get_backup_command repo.path repo.name repo.password (type_text repo.store)
              source_path))
          _ w w' tt h in
      let e = new_backup_executor x floats c in
      let (w₂, st, p₂, h₂) =
        bind_returned
          (rephrase (with_error "failed to run backup command: %v") (run_call (run x e))) _ w₁ w' tt
          h₁ in
      let (q, started_st) = run-started x e w₁ w₂ st (
        run_call_returned (run x e) w₁ w₂ st
          (rephrase_returned _ (run_call (run x e)) w₁ w₂ st p₂)) in
      let (st', status, sound, view, (w₃, written, no_error, is_done)) =
        await-Final x e some (write_backup_status x floats r flags) Sound (settled-Sound e refl)
          looks st w₂ w' h₂ (rw started_st (λ s k. cc)) in
      saved st' status w₃ w' sound
        (backup_status-final st' st'.last_error st'.summary status refl refl view no_error is_done)
        written

  backup_repository-Saved :
      (looks : ℕ) (source_path : Text) (repo : Repository) (w w' : W)
      → backup_repository x floats r flags looks source_path repo w ≡ (w', returned tt)
      → Saved w'
  unfolding backup_repository
  backup_repository-Saved looks source_path repo w w' h =
      let (w₁, b, p₁, h₁) =
        bind_returned
          (rephrase
            (λ e.
              prefixed (named "repository exists check for repo %s failed: %v" repo.name e).text e)
            (is_repository_exists x floats r flags repo))
          _ w w' tt h in
      let (w₂, u, p₂, h₂) =
        bind_returned (prepare_repository x floats r flags repo b) _ w₁ w' tt h₁ in
      let (w₃, v, p₃, h₃) =
        bind_returned
          (handle (connect_failed x floats r flags repo)
            (run_kopia_repository_connect x floats r flags repo))
          _ w₂ w' tt h₂ in
      let (w₄, t, p₄, h₄) = bind_returned (compress x floats r flags source_path) _ w₃ w' tt h₃ in
      run_kopia_backup-Saved looks repo source_path w₄ w' (
        rephrase_returned (named "backup failed for repository %s: %v" repo.name)
          (run_kopia_backup x floats r flags looks repo source_path) w₄ w' tt h₄)

  backup_with-Saved :
      (looks : ℕ) (source_path : Text) (z : Result Repository) (w w' : W)
      → backup_with x floats r flags looks source_path z w ≡ (w', returned tt)
      → Saved w'
  unfolding backup_with
  backup_with-Saved looks source_path (err e) w w' h =
      let (w₁, u, p₁, h₁) = bind_returned (create_backup_object x floats r flags []) _ w w' tt h in
      let (w₂, v, p₂, h₂) =
        bind_returned
          (run_call (write_backup_status x floats r flags (plain_status floats false (some e)))) _
          w₁ w' tt h₁ in
      absurd (ground arith)
  backup_with-Saved looks source_path (ok repo) w w' h =
      let named_repo = record repo { name = frame_backup_path flags.kopia_repo } in
      let (w₁, u, p₁, h₁) =
        bind_returned (create_backup_object x floats r flags named_repo.name) _ w w' tt h in
      backup_repository-Saved looks source_path named_repo w₁ w' h₁

  -- The object of the backup was read and, with the status, written, and nothing came after.
  abbrev pub Stored : Status F → W → Type 0
  Stored status w' =
      (vb : VolumeBackup F) × (w₁ : W) × (w₂ : W) × (x.get_volume_backup flags.volume_backup_name
          flags.namespace w₁
        ≡ (w₂, ok vb))
      × (x.update_volume_backup (with_status status vb) w₂ ≡ (w', ok tt))

  write-Stored :
      (name : Text) (status : Status F) (w w' : W)
      → flags.volume_backup_name ≡ name
      → is_empty name ≡ false
      → write_volume_backup_status x status name flags.namespace w ≡ (w', ok tt)
      → Stored status w'
  unfolding write_volume_backup_status
  write-Stored [] status w w' p q h = absurd (ground arith)
  write-Stored (c ∷ name) status w w' p q h =
      let (w₁, vb, e, f) =
        bind_ok
          (wrap (about "get %s/%s VolumeBackup: %v" (c ∷ name) flags.namespace)
            (x.get_volume_backup (c ∷ name) flags.namespace))
          _ w w' tt h in
      (
        vb,
        w,
        w₁,
        rw p (wrap_ok _ (x.get_volume_backup (c ∷ name) flags.namespace) w w₁ vb e),
        wrap_ok _ (x.update_volume_backup (with_status status vb)) w₁ w' tt f,
      )

  -- Where a volume backup is named, a runBackup that ends without an error has seen kopia's process
  -- end without a failure; the first line of its output is a summary that names a snapshot and counts
  -- no fatal error; and the last that was done is to store, in the volume backup as it was read, the
  -- progress 100, that snapshot, its size and no error.
  pub run_backup-Saved :
      (looks : ℕ) (source_path : Text) (w w' : W)
      → is_empty flags.volume_backup_name ≡ false
      → run_backup x floats r flags looks source_path w ≡ (w', returned tt)
      → (s : BackupSummary) × Snapshot s
        × (is_empty s.id ≡ false)
        × (is_zero s.fatal_error_count ≡ true)
        × Stored (finished s) w'
  unfolding run_backup write_backup_status
  run_backup-Saved looks source_path w w' n h =
      let (s, shot, i, z, (w₁, p)) =
        backup_with-Saved looks source_path (parse_cloud_cred x w).1 (parse_cloud_cred x w).0 w'
          h in
      (s, shot, i, z, write-Stored flags.volume_backup_name (finished s) w₁ w' refl n p)
