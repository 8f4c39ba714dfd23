-- ===== src/Tests/Services.antt =====
-- Concrete services for the examples: a client that holds one object in memory, a retry helper that
-- runs a task at most twice, and a cluster in which deletions succeed and every other call fails.
use kdmp.Base.{
  ℕ, true, false, ◌&&◌, Option, none, some, [], Text, codes, Error, errorf, not_found, Result, ok,
  err, Call, ◌≡◌, refl, arith, ◌==◌, text_eq, text_eq_iff, is_not_found,
}
use kdmp.Base.Int.{pos}
use kdmp.Api.{DataExport}
use kdmp.Services.{
  Cluster, Client, ClientLaws, Retry, RetryLaws, BackoffLaws, Attempt, done, again, give_up,
  Retried, done_at, gave_up_at, again_at, timed_out_at,
}

abbrev pub unavailable : Error
unavailable = errorf (codes "service unavailable")

abbrev pub missing : Error
missing = record { kind = not_found; text = codes "not found" }

-- The object held, if it has the name.
unfoldable pub held : Text → Text → Option DataExport → Option DataExport
held n ns none = none
held n ns (some d) = elim (text_eq d.name n && text_eq d.namespace ns) [
  | true ↦ some d
  | false ↦ none
]

unfoldable pub found : Option DataExport → Result DataExport
found none = err missing
found (some d) = ok d

abbrev pub memory : Client
memory = record {
  Objects = Option DataExport;
  read = λ n ns o. (o, found (held n ns o));
  get = λ n ns o. (o, found (held n ns o));
  update = λ d o. (some d, ok tt);
  delete = λ d o. (none, ok tt);
}

pub held-named :
    (n ns : Text) (o : Option DataExport) (d : DataExport)
    → held n ns o ≡ some d
    → (d.name ≡ n) × (d.namespace ≡ ns)
unfolding held
held-named n ns none d h = ground arith
held-named n ns (some e) d h = ground (arith, text_eq_iff e.name n, text_eq_iff e.namespace ns)

pub found-held : (o : Option DataExport) (d e : DataExport) → o ≡ some d → found o ≡ ok e → e ≡ d
unfolding found
found-held o d e p q = ground arith

pub found-missing :
    (o : Option DataExport) (d : DataExport) (e : Error)
    → o ≡ some d
    → found o ≡ err e
    → is_not_found e ≡ false
unfolding found
found-missing o d e p q = ground arith

pub held_self :
    (n ns : Text) (d : DataExport) → d.name ≡ n → d.namespace ≡ ns → held n ns (some d) ≡ some d
unfolding held
held_self n ns d p q = ground (arith, text_eq_iff d.name n, text_eq_iff d.namespace ns)

pub ok-err : (e : Error) {P : Type 0} (x : Result (Unit {0})) → x ≡ ok tt → x ≡ err e → P
ok-err e x h g = cc

abbrev pub memory_laws : (n ns : Text) → ClientLaws memory n ns
memory_laws n ns = record {
  stored = held n ns;
  named = held-named n ns;
  read_keeps = λ o. refl;
  read_stored = λ o d e p q. found-held (held n ns o) d e p q;
  get_keeps = λ o. refl;
  get_stored = λ o d e p q. found-held (held n ns o) d e p q;
  get_found = λ o d e p q. found-missing (held n ns o) d e p q;
  update_done = λ d o p q live h. held_self n ns d p q;
  update_failed = λ d o e p q live h. ok-err e (ok tt) refl h;
}

-- The result of a run, and what to do where another one is wanted.
unfoldable pub next : {S A : Type 0} → S × Attempt A → (S → S × Result A) → S × Result A
next (s, done a) f = (s, ok a)
next (s, again e) f = f s
next (s, give_up e) f = (s, err e)

-- The result of one run of a polled condition.
unfoldable pub once : {S A : Type 0} → S × Result (Option A) → S × Result A
once (s, ok (some a)) = (s, ok a)
once (s, ok none) = (s, err unavailable)
once (s, err e) = (s, err e)

abbrev pub twice : Retry
twice = record {
  do_retry = λ S A task s. next (task s) (λ s'. next (task s') (λ t. (t, err unavailable)));
  backoff = λ S A cond s. once (cond s);
}

next-Retried :
    {S A : Type 0} (task : S → S × Attempt A) (s : S) (x : S × Attempt A) (f : S → S × Result A)
    → task s ≡ x
    → ((s' : S) → Retried task s' (f s'))
    → Retried task s (next x f)
unfolding next
next-Retried task s (s', done a) f e h = done_at s s' a e
next-Retried task s (s', again b) f e h = again_at s s' b (f s') e (h s')
next-Retried task s (s', give_up b) f e h = gave_up_at s s' b e

pub twice_laws : RetryLaws twice
unfolding next
twice_laws = record {
  is_retried = λ S A task s.
      next-Retried task s (task s) (λ s'. next (task s') (λ t. (t, err unavailable))) refl
        (λ s'.
          next-Retried task s' (task s') (λ t. (t, err unavailable)) refl
            (λ t. timed_out_at t unavailable));
  prompt = λ S A task s s' a e. rw e refl;
}

once_ok :
    {S A : Type 0} (z : S × Result (Option A)) (s : S) (a : A)
    → once z ≡ (s, ok a)
    → z ≡ (s, ok (some a))
unfolding once
once_ok (s', ok (some b)) s a h = ground arith
once_ok (s', ok none) s a h = ground arith
once_ok (s', err e) s a h = ground arith

pub twice_backoff : BackoffLaws twice
twice_backoff = record { last_run = λ S A cond s s' a h. (s, once_ok (cond s) s' a h) }

pub down : {A : Type 0} → Call Unit A
down w = (w, err unavailable)

unfoldable pub done_call : Call Unit Unit
done_call w = (w, ok tt)

abbrev pub outage : Cluster
outage = record {
  World = Unit;
  Float64 = ℕ;
  to_int = pos;
  is_hundred = λ f. f == 100;
  getenv = λ x w. [];
  read_file = λ x. down;
  decode_backup_location = λ x. err unavailable;
  get_pvc = λ x y. down;
  create_pvc = λ x. down;
  delete_pvc = λ x y. done_call;
  get_pv = λ x. down;
  update_pv = λ x. down;
  get_pods_using_pvc = λ x y. down;
  get_job_pods = λ x y. down;
  waits_for_consumer = λ x. down;
  get_config_map = λ x y. down;
  get_secret = λ x y w. (w, err missing);
  create_secret = λ x. down;
  delete_secret = λ x y. done_call;
  get_backup_location = λ x y. down;
  get_volume_backup = λ x y. down;
  snapshot_client = done_call;
  get_snapshot_class = λ x. down;
  snapshot_driver = λ x. done_call;
  create_snapshot = λ x y. down;
  snapshot_status = λ x y z. down;
  upload_snapshot_objects = λ a b c d e. down;
  restore_volume_claim = λ a b c d. down;
  restore_status = λ a b c. down;
  restore_from_local_snapshot = λ a b c d e f g. down;
  clean_up_restored_resources = λ a b c d e f g. done_call;
  retain_local_snapshots = λ a b c d e f. done_call;
}
