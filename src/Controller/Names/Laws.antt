-- ===== src/Controller/Names/Laws.antt =====
-- The lengths of the derived names, and the name of a claim read back from one of them.
use mathlib.Core.Path.{ap₂}
use kdmp.Base.{
  subst, ==_iff, ℕ, ◌+◌, ◌≤◌, ◌≡◌, refl, ap, ◌∙◌, sym, true, false, List, [], ◌∷◌, ◌++◌, Text,
  length, length-append, length-take, arith, ◌==◌, All, Bool-cases, inl, inr,
}
use kdmp.Base.Strings.{split, join}
use kdmp.Api.{DataExport}
use kdmp.Controller.Names.{
  truncated_pvc_name, cut, to_snap_name, to_snapshot_pvc_name, has_snapshot_stage,
  get_repo_pvc_name, head_text, drop_last,
}

-- No byte of a text is the separator.
abbrev pub Free : ℕ → Text → Type 0
Free sep = All (λ c. (c == sep) ≡ false)

split-cons : (sep : ℕ) (s : Text) → (t : Text) × (ts : List Text) × (split sep s ≡ t ∷ ts)
unfolding split
split-cons sep [] = ([], [], refl)
split-cons sep (c ∷ s) = elim (Bool-cases (c == sep)) [
  | inl e ↦ ([], split sep s, rw e)
  | inr e ↦ let (t, ts, q) = split-cons sep s in (c ∷ t, ts, rw (e, q))
]

pub head_text-split-Free : (sep : ℕ) (s : Text) → Free sep (head_text (split sep s))
unfolding split
head_text-split-Free sep [] = tt
head_text-split-Free sep (c ∷ s) = elim (Bool-cases (c == sep)) [
  | inl e ↦ rw e tt
  | inr e ↦
      let (t, ts, q) = split-cons sep s in
      rw (e, q) (e, subst (λ l. Free sep (head_text l)) q (head_text-split-Free sep s))
]

split-Free : (sep : ℕ) (t : Text) → Free sep t → split sep t ≡ t ∷ []
unfolding split
split-Free sep [] f = refl
split-Free sep (c ∷ t) f = rw (f.0, split-Free sep t f.1)

split-two :
    (sep : ℕ) (s t : Text)
    → (u v : Text) × (ws : List Text) × (split sep (s ++ (sep ∷ t)) ≡ u ∷ (v ∷ ws))
unfolding split
split-two sep [] t =
    let (v, ws, q) = split-cons sep t in ([], v, ws, rw ((==_iff sep sep).1 refl, q))
split-two sep (c ∷ s) t = elim (Bool-cases (c == sep)) [
  | inl e ↦ let (u, v, ws, q) = split-two sep s t in ([], u, v ∷ ws, rw (e, q))
  | inr e ↦ let (u, v, ws, q) = split-two sep s t in (c ∷ u, v, ws, rw (e, q))
]

join-cons_head :
    (d : Text) (c : ℕ) (u : Text) (us : List Text) → join d ((c ∷ u) ∷ us) ≡ c ∷ join d (u ∷ us)
unfolding join
join-cons_head d c u [] = refl
join-cons_head d c u (v ∷ vs) = refl

-- Splitting at the separator, dropping the last part and joining again gives what stands before
-- the last separator.
pub join-drop_last-split :
    (sep : ℕ) (s t : Text)
    → Free sep t
    → join (sep ∷ []) (drop_last (split sep (s ++ (sep ∷ t)))) ≡ s
unfolding split join
join-drop_last-split sep [] t f = rw ((==_iff sep sep).1 refl, split-Free sep t f)
join-drop_last-split sep (c ∷ s) t f =
    let (u, v, ws, q) = split-two sep s t in
    let ih = subst (λ l. join (sep ∷ []) (drop_last l) ≡ s) q (join-drop_last-split sep s t f) in
    elim (Bool-cases (c == sep)) [
      | inl e ↦ rw (e, q) (ap₂ ◌∷◌ (sym ((==_iff c sep).0 e)) ih)
      | inr e ↦ rw (e, q) (join-cons_head (sep ∷ []) c u (drop_last (v ∷ ws)) ∙ ap (◌∷◌ c) ih)
    ]

pub length-cut : (n : ℕ) (s : Text) → length (cut n s) ≤ n
unfolding cut
length-cut n s = ground (arith, length-take n s)

-- A snapshot and the temporary claim restored from it have names of at most 247 bytes of the
-- claim's name, a dash, and the first part of the uid.
pub length-to_snapshot_pvc_name :
    (pvc_name uid : Text)
    → (length (to_snapshot_pvc_name pvc_name uid) ≤ 248 + length (head_text (split b'-' uid)))
      × (length (to_snap_name pvc_name uid) ≤ 248 + length (head_text (split b'-' uid)))
unfolding to_snapshot_pvc_name to_snap_name
length-to_snapshot_pvc_name pvc_name uid =
    let name = cut 247 pvc_name in
    let rest = head_text (split b'-' uid) in
    let bound : length (name ++ (b'-' ∷ rest)) ≤ 248 + length rest =
      omega (arith, length-append name (b'-' ∷ rest), length-cut 247 pvc_name) in
    (bound, bound)

-- For a data export with a snapshot stage, the repository's claim name that is read from the
-- temporary claim's name is the source claim's name, cut to 247 bytes where it is longer.
pub get_repo_pvc_name-to_snapshot_pvc_name :
    (de : DataExport) (pvc_name : Text)
    → has_snapshot_stage de ≡ true
    → get_repo_pvc_name de (to_snapshot_pvc_name pvc_name de.uid) ≡ truncated_pvc_name pvc_name
unfolding get_repo_pvc_name to_snapshot_pvc_name
get_repo_pvc_name-to_snapshot_pvc_name de pvc_name h =
    rw h
      (join-drop_last-split b'-' (truncated_pvc_name pvc_name) _ (head_text-split-Free b'-' de.uid))
