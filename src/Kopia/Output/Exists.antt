-- ===== src/Kopia/Output/Exists.antt =====
-- When a repository is reported to be there already.
use kdmp.Base.{
  ℕ, Bool, true, false, List, [], ◌∷◌, Text, codes, ◌≡◌, refl, sym, subst, arith, ◌==◌, errorf,
  format, Bool-cases, inl, inr, if◌then◌else◌, ◌↔◌,
}
use kdmp.Base.Strings.{split, cons_head, is_prefix, contains}
use kdmp.Jobs.Laws.{Free}
use kdmp.Kopia.Output.{
  any_contains, parse_std_err, already_repo_exist_text, already_repo_exist_error, newline,
}

-- The first line.
first : List Text → Text
first [] = []
first (t ∷ _) = t

first-cons_head : (c : ℕ) (ts : List Text) → first (cons_head c ts) ≡ c ∷ first ts
unfolding first cons_head
first-cons_head c [] = refl
first-cons_head c (t ∷ ts) = refl

other : (d c sep : ℕ) → (d == sep) ≡ false → (c == sep) ≡ true → (d == c) ≡ false
other d c sep p q = ground arith

is_prefix-first :
    (sep : ℕ) (p s : Text) → Free sep p → is_prefix p (first (split sep s)) ≡ is_prefix p s
unfolding is_prefix split first
is_prefix-first sep [] s f = refl
is_prefix-first sep (d ∷ p) [] f = refl
is_prefix-first sep (d ∷ p) (c ∷ s) (e, f) = elim (Bool-cases (c == sep)) [
  | inl q ↦ rw (q, other d c sep e q) refl
  | inr q ↦ rw (q, first-cons_head c (split sep s), is_prefix-first sep p s f) refl
]

if-or :
    (x y z : Bool)
    → (if (if x then true else y) then true else z) ≡ (if x then true else (if y then true else z))
if-or true y z = refl
if-or false y z = refl

any_contains-cons_head :
    (c d : ℕ) (p : Text) (ts : List Text)
    → any_contains (cons_head c ts) (d ∷ p)
      ≡ (if is_prefix (d ∷ p) (c ∷ first ts) then true else any_contains ts (d ∷ p))
unfolding any_contains cons_head contains is_prefix first
any_contains-cons_head c d p [] = if-or (is_prefix (d ∷ p) (c ∷ [])) false false
any_contains-cons_head c d p (t ∷ ts) =
    if-or (is_prefix (d ∷ p) (c ∷ t)) (contains t (d ∷ p)) (any_contains ts (d ∷ p))

any_contains-split :
    (sep d : ℕ) (p s : Text)
    → Free sep (d ∷ p)
    → any_contains (split sep s) (d ∷ p) ≡ contains s (d ∷ p)
unfolding any_contains split contains is_prefix
any_contains-split sep d p [] f = refl
any_contains-split sep d p (c ∷ s) (e, f) = elim (Bool-cases (c == sep)) [
  | inl q ↦ rw (q, other d c sep e q, any_contains-split sep d p s (e, f)) refl
  | inr q ↦
      rw
        (
          q,
          any_contains-cons_head c d p (split sep s),
          is_prefix-first sep p s f,
          any_contains-split sep d p s (e, f),
        )
        refl
]

exists_verdict :
    (b : Bool) (t : Text)
    → ((if b then already_repo_exist_error else errorf t) ≡ already_repo_exist_error) ↔ (b ≡ true)
exists_verdict true t = (λ h. refl, λ h. refl)
exists_verdict false t = (λ h. cc, λ h. cc)

-- The error of a failed creation is the one for a repository that exists exactly where the message
-- stands somewhere in the output.
pub parse_std_err-contains :
    (std_err : Text)
    → (parse_std_err std_err ≡ already_repo_exist_error)
      ↔ (contains std_err already_repo_exist_text ≡ true)
unfolding parse_std_err
parse_std_err-contains std_err =
    subst
      (λ b.
        ((if b
            then already_repo_exist_error
            else errorf (format "error while creating repository: %v" (std_err ∷ [])))
          ≡ already_repo_exist_error)
        ↔ (contains std_err already_repo_exist_text ≡ true))
      (sym (
        any_contains-split newline b'f' (codes "ound existing data in storage location") std_err
          (ground arith)))
      (exists_verdict (contains std_err already_repo_exist_text)
        (format "error while creating repository: %v" (std_err ∷ [])))
