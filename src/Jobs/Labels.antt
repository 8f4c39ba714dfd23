-- ===== src/Jobs/Labels.antt =====
-- GetValidLabel of pkg/drivers/utils/utils.go, over truncate.Truncate with a length and no omission.
use kdmp.Base.{
  ℕ, Bool, false, [], ◌∷◌, Text, ◌==◌, ltb, if◌then◌else◌, ◌≡◌, refl, ◌≤◌, ◌<◌, arith, Bool-cases,
  inl, inr, ◌⊎◌, length, sym, subst, ◌+◌,
}
use mathlib.Core.List.{reverse, reverse_aux, reverse-reverse}
use kdmp.Base.Strings.{trim_left, trim_both}

unfoldable pub get_valid_label : (Text → ℕ → Text) → Text → Text
unfolding trim_both
get_valid_label truncate label =
    if ltb 63 (length label)
    then trim_both (λ c. c == b'.') (trim_both (λ c. c == b'-') (truncate label 63))
    else label

-- The text does not start with such a byte.
abbrev pub StartsWithout : (ℕ → Bool) → Text → Type 0
StartsWithout p [] = Unit
StartsWithout p (c ∷ s) = p c ≡ false

trim_left-StartsWithout : (p : ℕ → Bool) (s : Text) → StartsWithout p (trim_left p s)
unfolding trim_left
trim_left-StartsWithout p [] = tt
trim_left-StartsWithout p (c ∷ s) = elim (Bool-cases (p c)) [
  | inl q ↦ rw q (trim_left-StartsWithout p s)
  | inr q ↦ rw q q
]

length-trim_left : (p : ℕ → Bool) (s : Text) → length (trim_left p s) ≤ length s
unfolding trim_left
length-trim_left p [] = omega arith
length-trim_left p (c ∷ s) = elim (Bool-cases (p c)) [
  | inl q ↦ rw q (omega (arith, length-trim_left p s))
  | inr q ↦ rw q (omega arith)
]

length-reverse_aux : (l r : Text) → length (reverse_aux l r) ≡ length l + length r
length-reverse_aux [] r = omega arith
length-reverse_aux (x ∷ l) r = omega (arith, length-reverse_aux l (x ∷ r))

length-reverse : (l : Text) → length (reverse l) ≡ length l
length-reverse l = omega (arith, length-reverse_aux l [])

length-trim_both : (p : ℕ → Bool) (s : Text) → length (trim_both p s) ≤ length s
unfolding trim_both
length-trim_both p s = omega (
  arith,
  length-reverse (trim_left p (reverse (trim_left p s))),
  length-trim_left p (reverse (trim_left p s)),
  length-reverse (trim_left p s),
  length-trim_left p s,
)

trim_both-StartsWithout : (p : ℕ → Bool) (s : Text) → StartsWithout p (reverse (trim_both p s))
unfolding trim_both
trim_both-StartsWithout p s =
    subst (StartsWithout p) (sym (reverse-reverse (trim_left p (reverse (trim_left p s)))))
      (trim_left-StartsWithout p (reverse (trim_left p s)))

-- Where truncate.Truncate gives at most the 63 bytes that it is asked for, GetValidLabel gives at
-- most 63 bytes, and a label of that length is as it was, or it was longer and does not end in a dot
-- any more.
pub length-get_valid_label :
    (truncate : Text → ℕ → Text) (label : Text)
    → length (truncate label 63) ≤ 63
    → (length (get_valid_label truncate label) ≤ 63)
      × ((length label ≤ 63) × (get_valid_label truncate label ≡ label)
          ⊎ (63 < length label)
            × StartsWithout (λ c. c == b'.') (reverse (get_valid_label truncate label)))
unfolding get_valid_label
length-get_valid_label truncate label h = elim (Bool-cases (ltb 63 (length label))) [
  | inl q ↦
      let s = trim_both (λ c. c == b'-') (truncate label 63) in
      rw q (
        omega (
          arith,
          length-trim_both (λ c. c == b'.') s,
          length-trim_both (λ c. c == b'-') (truncate label 63),
        ),
        inr (ground arith, trim_both-StartsWithout (λ c. c == b'.') s),
      )
  | inr q ↦ rw q (ground arith, inl (ground arith, refl))
]
