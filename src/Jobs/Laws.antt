-- ===== src/Jobs/Laws.antt =====
-- What ParseJobID reads.
use kdmp.Base.{
  ℕ, false, [], ◌∷◌, ◌++◌, Option, none, some, Text, ◌≡◌, ◌↔◌, inl, inr, refl, ap, ◌∙◌, subst, ok,
  Bool-cases, ◌==◌, ==_iff, All,
}
use kdmp.Base.Strings.{split_once}
use kdmp.Jobs.{namespaced_name, parsed, parse_job_id}

-- The separator does not occur.
abbrev pub Free : ℕ → Text → Type 0
Free sep s = All (λ c. (c == sep) ≡ false) s

-- What stands before the first separator, and what stands after it.
abbrev IsParts : ℕ → Text → Text × Option Text → Type 0
IsParts sep s (a, some b) = (s ≡ a ++ (sep ∷ b)) × Free sep a
IsParts sep s (a, none) = (s ≡ a) × Free sep a

cons-IsParts :
    (sep c : ℕ) (s : Text) (z : Text × Option Text)
    → (c == sep) ≡ false
    → IsParts sep s z
    → IsParts sep (c ∷ s) (c ∷ z.0, z.1)
cons-IsParts sep c s (a, some b) e (h, f) = (ap (◌∷◌ c) h, (e, f))
cons-IsParts sep c s (a, none) e (h, f) = (ap (◌∷◌ c) h, (e, f))

split_once-IsParts : (sep : ℕ) (s : Text) → IsParts sep s (split_once sep s)
unfolding split_once
split_once-IsParts sep [] = (refl, tt)
split_once-IsParts sep (c ∷ s) = elim (Bool-cases (c == sep)) [
  | inl e ↦ rw (e, split_once) (ap (λ z. z ∷ s) ((==_iff c sep).0 e), tt)
  | inr e ↦
      rw (e, split_once) (cons-IsParts sep c s (split_once sep s) e (split_once-IsParts sep s))
]

pub split_once-append :
    (sep : ℕ) (a b : Text) → Free sep a → split_once sep (a ++ (sep ∷ b)) ≡ (a, some b)
unfolding split_once
split_once-append sep [] b f = rw ((==_iff sep sep).1 refl) refl
split_once-append sep (c ∷ a) b (e, f) = rw (e, split_once-append sep a b f) refl

parsed-IsParts :
    (id namespace name : Text) (z : Text × Option Text)
    → IsParts b'/' id z
    → parsed z ≡ ok (namespace, name)
    → (id ≡ namespaced_name namespace name) × Free b'/' namespace
unfolding parsed namespaced_name
parsed-IsParts id namespace name (a, some b) (h, f) e =
    let p : a ≡ namespace = cc in
    let q : b ≡ name = cc in
    (h ∙ ap (λ z. z ++ (b'/' ∷ b)) p ∙ ap (λ z. namespace ++ (b'/' ∷ z)) q, subst (Free b'/') p f)
parsed-IsParts id namespace name (a, none) h e = cc

-- A job id is read as a namespace and a name exactly where it is the namespaced name that is made
-- of the two, and the namespace holds no slash.
pub parse_job_id-namespaced_name :
    (id namespace name : Text)
    → (parse_job_id id ≡ ok (namespace, name))
      ↔ ((id ≡ namespaced_name namespace name) × Free b'/' namespace)
unfolding parse_job_id namespaced_name parsed
parse_job_id-namespaced_name id namespace name = (
  parsed-IsParts id namespace name (split_once b'/' id) (split_once-IsParts b'/' id),
  λ (h, f). rw (h, split_once-append b'/' namespace name f) refl,
)
