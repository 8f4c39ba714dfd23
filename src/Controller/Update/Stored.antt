-- ===== src/Controller/Update/Stored.antt =====
-- What updateStatus leaves stored.
use kdmp.Base.{
  Bool, true, false, Option, none, some, List, [], ◌∷◌, Text, Error, Result, ok, err, ◌≡◌, ◌⊎◌, inl,
  inr, refl, ap, ◌∙◌, arith, is_not_found, if◌then◌else◌, text_eq, Bool-cases, Result-cases,
}
use kdmp.Api.{DataExport, Stage, Status}
use kdmp.Services.{Client, ClientLaws, Retry, RetryLaws, Retried-rule, AttemptPost, ResultPost}
use kdmp.Controller.Flow.{UpdateDataExportDetail}
use kdmp.Controller.Update.{
  override, override_stage, override_status, remove_finalizer, apply_detail, put_task, update_task,
  update_status, update_error,
}

override-override : (s t : Text) → override s (override s t) ≡ override s t
unfolding override
override-override [] t = refl
override-override (c ∷ s) t = refl

override_stage-override_stage :
    (s t : Stage) → override_stage s (override_stage s t) ≡ override_stage s t
unfolding override_stage
override_stage-override_stage s t = ground arith

override_status-override_status :
    (s t : Status) → override_status s (override_status s t) ≡ override_status s t
unfolding override_status
override_status-override_status s t = ground arith

remove_finalizer-remove_finalizer :
    (f : Text) (xs : List Text) → remove_finalizer f (remove_finalizer f xs) ≡ remove_finalizer f xs
unfolding remove_finalizer
remove_finalizer-remove_finalizer f [] = refl
remove_finalizer-remove_finalizer f (x ∷ xs) = elim (Bool-cases (text_eq x f)) [
  | inl e ↦ rw e (remove_finalizer-remove_finalizer f xs)
  | inr e ↦ rw (e, remove_finalizer, e) (ap (◌∷◌ x) (remove_finalizer-remove_finalizer f xs))
]

if-if {ℓ} :
    {A : Type ℓ} (b : Bool) (x y : A) → (if b then if b then x else y else y) ≡ (if b then x else y)
if-if true x y = refl
if-if false x y = refl

if-remove :
    (b : Bool) (f : Text) (xs : List Text)
    → (if b
        then remove_finalizer f (if b then remove_finalizer f xs else xs)
        else if b
        then remove_finalizer f xs
        else xs)
      ≡ (if b then remove_finalizer f xs else xs)
if-remove true f xs = remove_finalizer-remove_finalizer f xs
if-remove false f xs = refl

-- Applying a detail twice is applying it once.
pub apply_detail-apply_detail :
    (d : UpdateDataExportDetail) (x : DataExport)
    → apply_detail d (apply_detail d x) ≡ apply_detail d x
unfolding apply_detail
apply_detail-apply_detail d x = simp (
  override-override, override_stage-override_stage, override_status-override_status, if-if,
  if-remove,
)

-- The object is stored as it was or with the detail applied, with the detail applied where no error
-- is reported, and the object in hand keeps its name and namespace.
abbrev pub IsPut :
    (c : Client) (n ns : Text)
    → ClientLaws c n ns
    → UpdateDataExportDetail
    → DataExport
    → (c.Objects × DataExport) × Option Error
    → Type 0
IsPut c n ns laws d x ((o, de), e) =
    ((laws.stored o ≡ some x) ⊎ (laws.stored o ≡ some (apply_detail d x)))
    × (e ≡ none → laws.stored o ≡ some (apply_detail d x))
    × (de.name ≡ n)
    × (de.namespace ≡ ns)

module _ (c : Client) (r : Retry) (n ns : Text) (laws : ClientLaws c n ns) (waits : RetryLaws r)
    (d : UpdateDataExportDetail) (x : DataExport) (named : (x.name ≡ n) × (x.namespace ≡ ns))
    (alive : x.deleting ≡ false) where
  -- The object is stored as it was, or with the detail applied.
  abbrev IsBetween : c.Objects → Type 0
  IsBetween o = (laws.stored o ≡ some x) ⊎ (laws.stored o ≡ some (apply_detail d x))

  abbrev Before : c.Objects × DataExport → Type 0
  Before (o, de) = IsBetween o × (de.name ≡ n) × (de.namespace ≡ ns)

  abbrev After : c.Objects × DataExport → Unit {0} → Type 0
  After (o, de) _ = (laws.stored o ≡ some (apply_detail d x)) × (de.name ≡ n) × (de.namespace ≡ ns)

  applied :
      (de : DataExport) → (de ≡ x) ⊎ (de ≡ apply_detail d x) → apply_detail d de ≡ apply_detail d x
  applied de (inl e) = ap (apply_detail d) e
  applied de (inr e) = ap (apply_detail d) e ∙ apply_detail-apply_detail d x

  between : (o o' : c.Objects) → laws.stored o ≡ laws.stored o' → IsBetween o' → IsBetween o
  between o o' e (inl h) = inl (e ∙ h)
  between o o' e (inr h) = inr (e ∙ h)

  put_task-AttemptPost :
      (y : DataExport) (o : c.Objects)
      → y ≡ apply_detail d x
      → IsBetween o
      → AttemptPost Before After (put_task c r y o)
  unfolding put_task apply_detail
  put_task-AttemptPost y o q b =
      let hn : y.name ≡ n = ap (λ z. z.name) q ∙ named.0 in
      let hs : y.namespace ≡ ns = ap (λ z. z.namespace) q ∙ named.1 in
      let live : y.deleting ≡ false = ap (λ z. z.deleting) q ∙ alive in
      elim (Result-cases (c.update y o).1) [
        | inl (t, h) ↦ rw (h, put_task) (laws.update_done y o hn hs live h ∙ ap some q, hn, hs)
        | inr (e, h) ↦
            rw (h, put_task)
              (
                elim (laws.update_failed y o e hn hs live h) [
                  | inl kept ↦ between (c.update y o).0 o kept b
                  | inr put ↦ inr (put ∙ ap some q)
                ],
                hn,
                hs,
              )
      ]

  -- A read of the object, by equal names, leaves what is stored and finds it.
  got :
      (a b : Text) (o : c.Objects) (y : DataExport)
      → a ≡ n
      → b ≡ ns
      → laws.stored o ≡ some y
      → (laws.stored (c.get a b o).0 ≡ laws.stored o)
        × ((f : DataExport) → (c.get a b o).1 ≡ ok f → f ≡ y)
        × ((e : Error) → (c.get a b o).1 ≡ err e → is_not_found e ≡ false)
  got a b o y p q h =
      rw (p, q)
        (laws.get_keeps o, (λ f g. laws.get_stored o y f h g), (λ e g. laws.get_found o y e h g))

  update_from :
      (o : c.Objects) (de y : DataExport)
      → laws.stored o ≡ some y
      → (y ≡ x) ⊎ (y ≡ apply_detail d x)
      → Before (o, de)
      → AttemptPost Before After (update_task c r d (o, de))
  unfolding update_task
  update_from o de y h e (b, hn, hs) =
      let (keeps, is_stored, is_there) = got de.name de.namespace o y hn hs h in
      let b' : IsBetween (c.get de.name de.namespace o).0 = between _ o keeps b in
      elim (Result-cases (c.get de.name de.namespace o).1) [
        | inl (f, g) ↦
            rw (g, update_task)
              (put_task-AttemptPost (apply_detail d f) (c.get de.name de.namespace o).0
                (ap (apply_detail d) (is_stored f g) ∙ applied y e) b')
        | inr (f, g) ↦ rw (g, update_task, is_there f g) (b', hn, hs)
      ]

  update_task-AttemptPost :
      (s : c.Objects × DataExport) → Before s → AttemptPost Before After (update_task c r d s)
  update_task-AttemptPost (o, de) (inl h, hn, hs) = update_from o de x h (inl refl) (inl h, hn, hs)
  update_task-AttemptPost (o, de) (inr h, hn, hs) =
      update_from o de (apply_detail d x) h (inr refl) (inr h, hn, hs)

  concluded :
      (z : (c.Objects × DataExport) × Result (Unit {0}))
      → ResultPost Before After z
      → IsPut c n ns laws d x (z.0, update_error c r z.0.1.name z.1)
  concluded ((o, de), ok _) (h, hn, hs) = (inr h, (λ _. h), hn, hs)
  concluded ((o, de), err e) (b, hn, hs) = (b, (λ h. cc), hn, hs)

-- Whatever calls fail and however often the task is run, updateStatus leaves the object stored
-- either as it was or with exactly the detail applied, and with the detail applied where it reports
-- no error; the object in hand keeps its name and namespace.
pub update_status-IsPut :
    (c : Client) (r : Retry) (n ns : Text) (laws : ClientLaws c n ns) (waits : RetryLaws r)
    (d : UpdateDataExportDetail) (x de : DataExport) (o : c.Objects)
    → laws.stored o ≡ some x
    → x.deleting ≡ false
    → de.name ≡ n
    → de.namespace ≡ ns
    → IsPut c n ns laws d x (update_status c r de d o)
unfolding update_status
update_status-IsPut c r n ns laws waits d x de o h alive hn hs =
    let named = laws.named o x h in
    concluded c r n ns laws waits d x named alive
      (r.do_retry (c.Objects × DataExport) Unit (update_task c r d) (o, de))
      (Retried-rule (Before c r n ns laws waits d x named alive)
        (After c r n ns laws waits d x named alive) (update_task c r d)
        (update_task-AttemptPost c r n ns laws waits d x named alive) (o, de)
        (waits.is_retried (c.Objects × DataExport) Unit (update_task c r d) (o, de))
        (inl h, hn, hs))
