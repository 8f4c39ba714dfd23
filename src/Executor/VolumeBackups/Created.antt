-- ===== src/Executor/VolumeBackups/Created.antt =====
-- When CreateVolumeBackup succeeds.
use kdmp.Base.{
  subst, errorf, format, true, ◌≡◌, ◌↔◌, ◌⊎◌, inl, inr, refl, ap, [], ◌∷◌, Text, Error, Result, ok,
  err, arith, text_eq_iff, is_not_found, is_empty, Bool-cases,
}
use kdmp.Api.{VolumeBackup, ObjectReference}
use kdmp.Executor.{ExecutorServices, Floats}
use kdmp.Executor.VolumeBackups.{
  create_volume_backup, create_or_check, new_volume_backup, same_spec, same_reference,
}
use kdmp.Jobs.Accounts.{skip_resource_annotations}

same_reference_iff : (a b : ObjectReference) → (same_reference a b ≡ true) ↔ (a ≡ b)
unfolding same_reference
same_reference_iff a b = (
  λ h. ground (
    arith,
    text_eq_iff a.api_version b.api_version,
    text_eq_iff a.kind b.kind,
    text_eq_iff a.namespace b.namespace,
    text_eq_iff a.name b.name,
  ),
  λ e. ground (
    arith,
    text_eq_iff a.api_version b.api_version,
    text_eq_iff a.kind b.kind,
    text_eq_iff a.namespace b.namespace,
    text_eq_iff a.name b.name,
    ap (λ (z : ObjectReference). z.api_version) e,
    ap (λ (z : ObjectReference). z.kind) e,
    ap (λ (z : ObjectReference). z.namespace) e,
    ap (λ (z : ObjectReference). z.name) e,
  ),
)

-- The object has the specification.
abbrev pub SameSpec : {F : Type 0} → VolumeBackup F → VolumeBackup F → Type 0
SameSpec a b = (a.repository ≡ b.repository) × (a.backup_location ≡ b.backup_location)

same_spec_iff : {F : Type 0} (a b : VolumeBackup F) → (same_spec a b ≡ true) ↔ SameSpec a b
unfolding same_spec
same_spec_iff a b = (
  λ h. ground (
    arith,
    text_eq_iff a.repository b.repository,
    same_reference_iff a.backup_location b.backup_location,
  ),
  λ s. ground (
    arith,
    text_eq_iff a.repository b.repository,
    same_reference_iff a.backup_location b.backup_location,
  ),
)

is_empty-eq : (t : Text) → is_empty t ≡ true → t ≡ []
is_empty-eq [] h = refl
is_empty-eq (c ∷ t) h = cc

module _ {W F : Type 0} (x : ExecutorServices W F) (floats : Floats F) where
  -- No such object was found and the new one was created, or one with the new one's specification was
  -- found that has no snapshot yet.
  abbrev pub Accepted : VolumeBackup F → W × Result (VolumeBackup F) → W → Type 0
  Accepted new z w' =
      ((e : Error) × (z.1 ≡ err e)
        × (is_not_found e ≡ true)
        × (x.create_volume_backup skip_resource_annotations new z.0 ≡ (w', ok tt)))
      ⊎ ((vb : VolumeBackup F) × (z ≡ (w', ok vb)) × SameSpec vb new × (vb.snapshot_id ≡ []))

  absent-Accepted :
      (new : VolumeBackup F) (w w' : W) (e : Error)
      → (create_or_check x floats new (err e) w ≡ (w', ok tt)) ↔ Accepted new (w, err e) w'
  unfolding create_or_check
  absent-Accepted new w w' e = elim (Bool-cases (is_not_found e)) [
    | inl p ↦ (
      λ h. inl (e, refl, p, rw p at h),
      λ a. elim a [
        | inl (f, q, _, c) ↦ rw p c
        | inr (vb, q, _, _) ↦ let q' : err e ≡ ok vb = ap (λ z. z.1) q in absurd (ground arith)
      ],
    )
    | inr p ↦ (
      λ h.
          let h' : ◌≡◌ {A = W × Result (Unit {0})} (w, err e) (w', ok tt) = rw p at h in
          absurd (ground arith),
      λ a. elim a [
        | inl (f, q, n, c) ↦ absurd (let k : e ≡ f = cc in ground (arith, ap is_not_found k))
        | inr (vb, q, _, _) ↦ let q' : err e ≡ ok vb = ap (λ z. z.1) q in absurd (ground arith)
      ],
    )
  ]

  taken-Accepted :
      (new vb : VolumeBackup F) (w w' : W)
      → Accepted new (w, ok vb) w'
      → ◌≡◌ {A = W × Result (VolumeBackup F)} (w, ok vb) (w', ok vb)
        × (same_spec vb new ≡ true)
        × (vb.snapshot_id ≡ [])
  taken-Accepted new vb w w' (inl (e, q, _, _)) =
      let q' : ok vb ≡ err e = q in absurd (ground arith)
  taken-Accepted new vb w w' (inr (u, q, same, empty)) =
      let q' : ok vb ≡ ok u = ap (λ z. z.1) q in
      let k : u ≡ vb = cc in
      (
        ap (λ z. (z.0, ok vb)) q,
        (same_spec_iff vb new).1 (subst (λ v. SameSpec v new) k same),
        subst (λ (v : VolumeBackup F). v.snapshot_id ≡ []) k empty,
      )

  found-Accepted :
      (new : VolumeBackup F) (w w' : W) (vb : VolumeBackup F)
      → (create_or_check x floats new (ok vb) w ≡ (w', ok tt)) ↔ Accepted new (w, ok vb) w'
  unfolding create_or_check
  found-Accepted new w w' vb = elim (Bool-cases (same_spec vb new)) [
    | inr p ↦ (
      λ h.
          let h' : ◌≡◌ {A = Result (Unit {0})}
              (err (
                errorf (
                  format "volumebackup %s/%s with different spec already exists"
                    (new.namespace ∷ new.name ∷ []))))
              (ok tt) =
            ap (λ z. z.1) (rw p at h) in
          absurd (ground arith),
      λ a. let (_, q, _) = taken-Accepted new vb w w' a in absurd (ground arith),
    )
    | inl p ↦ elim (Bool-cases (is_empty vb.snapshot_id)) [
      | inl n ↦ (
        λ h.
            let h' : ◌≡◌ {A = W × Result (Unit {0})} (w, ok tt) (w', ok tt) = rw (p, n) at h in
            inr (
              vb,
              ap (λ z. (z.0, ok vb)) h',
              (same_spec_iff vb new).0 p,
              is_empty-eq vb.snapshot_id n,
            ),
        λ a. let (q, _, _) = taken-Accepted new vb w w' a in rw (p, n) (ap (λ z. (z.0, ok tt)) q),
      )
      | inr n ↦ (
        λ h.
            let h' : ◌≡◌ {A = Result (Unit {0})}
                (err (
                  errorf (
                    format "volumebackup %s/%s with snapshot id already exists"
                      (new.namespace ∷ new.name ∷ []))))
                (ok tt) =
              ap (λ z. z.1) (rw (p, n) at h) in
            absurd (ground arith),
        λ a.
            let (_, _, e) = taken-Accepted new vb w w' a in
            absurd (let k : is_empty vb.snapshot_id ≡ true = rw e in ground arith),
      )
    ]
  ]

  -- CreateVolumeBackup succeeds exactly where no such object was found and the new one was created, or
  -- one with the same repository and backup location was found that has no snapshot yet.
  pub create_volume_backup-Accepted :
      (name namespace repository bl_name bl_namespace : Text) (w w' : W)
      → (create_volume_backup x floats name namespace repository bl_name bl_namespace w
          ≡ (w', ok tt))
        ↔ Accepted
            (new_volume_backup x floats name namespace repository bl_name bl_namespace)
            (x.get_volume_backup name namespace w)
            w'
  unfolding create_volume_backup
  create_volume_backup-Accepted name namespace repository bl_name bl_namespace w w' =
      checked (new_volume_backup x floats name namespace repository bl_name bl_namespace)
        (x.get_volume_backup name namespace w)
    where
      checked :
          (new : VolumeBackup F) (z : W × Result (VolumeBackup F))
          → (create_or_check x floats new z.1 z.0 ≡ (w', ok tt)) ↔ Accepted new z w'
      checked new (v, err e) = absent-Accepted new v w' e
      checked new (v, ok vb) = found-Accepted new v w' vb
