-- ===== src/Drivers/KopiaBackup/Command.antt =====
-- The executor's command line, and the name of the repository in it.
use kdmp.Base.{
  ℕ, List, [], ◌∷◌, ◌++◌, Text, codes, ◌≡◌, refl, sym, ap, ◌∙◌, some, ==_iff, All, arith,
}
use mathlib.Core.List.{append-nil, append_assoc}
use kdmp.Base.Strings.{split, cons_head, join, split_once}
use kdmp.Drivers.KopiaJob.{command_line}
use kdmp.Drivers.KopiaBackup.{to_repo_name, with_compression}
use kdmp.Jobs.Laws.{Free, split_once-append}

split-Free : (sep : ℕ) (t : Text) → Free sep t → split sep t ≡ t ∷ []
unfolding split cons_head
split-Free sep [] f = refl
split-Free sep (c ∷ t) (e, f) = rw (e, split-Free sep t f) refl

split-append : (sep : ℕ) (t s : Text) → Free sep t → split sep (t ++ (sep ∷ s)) ≡ t ∷ split sep s
unfolding split cons_head
split-append sep [] s f = rw ((==_iff sep sep).1 refl) refl
split-append sep (c ∷ t) s (e, f) = rw (e, split-append sep t s f) refl

split-join :
    (sep : ℕ) (t : Text) (ts : List Text)
    → All (Free sep) (t ∷ ts)
    → split sep (join (sep ∷ []) (t ∷ ts)) ≡ t ∷ ts
unfolding join
split-join sep t [] (f, fs) = split-Free sep t f
split-join sep t (u ∷ ts) (f, fs) =
    split-append sep t (join (sep ∷ []) (u ∷ ts)) f ∙ ap (◌∷◌ t) (split-join sep u ts fs)

-- The words of the compression.
abbrev pub compression_args : Text → List Text
compression_args [] = []
compression_args (c ∷ t) = codes "--compression" ∷ (c ∷ t) ∷ []

All-append : (p : Text → Type 0) (xs ys : List Text) → All p xs → All p ys → All p (xs ++ ys)
All-append p [] ys h g = g
All-append p (x ∷ xs) ys (e, h) g = (e, All-append p xs ys h g)

flag-Free : Free b' ' (codes "--compression")
flag-Free = ground arith

pub with_compression-split :
    (compression t : Text) (ts : List Text)
    → Free b' ' compression
    → All (Free b' ') (t ∷ ts)
    → split b' ' (with_compression compression (command_line (t ∷ ts)))
      ≡ (t ∷ ts) ++ compression_args compression
unfolding with_compression
with_compression-split [] t ts f fs = split-join b' ' t ts fs ∙ sym (append-nil (t ∷ ts))
with_compression-split (c ∷ z) t ts f fs = rw (split-join b' ' t ts fs) (
    split-join b' ' t (ts ++ compression_args (c ∷ z))
      (All-append (Free b' ') (t ∷ ts) (compression_args (c ∷ z)) fs (flag-Free, (f, tt))))

-- The names of the repositories of two claims differ where the claims differ and neither namespace
-- holds a dash. Where namespaces hold dashes they can be equal: that of the claim p in the namespace
-- n-x is that of the claim x-p in the namespace n.
pub to_repo_name-injective :
    (p q n m x : Text)
    → (Free b'-' n → Free b'-' m → to_repo_name p n ≡ to_repo_name q m → (p ≡ q) × (n ≡ m))
      × (to_repo_name p (n ++ (b'-' ∷ x)) ≡ to_repo_name (x ++ (b'-' ∷ p)) n)
unfolding to_repo_name
to_repo_name-injective p q n m x = (
  λ f g e.
      (let h : (n, some p) ≡ (m, some q) =
          sym (split_once-append b'-' n p f)
          ∙ ap (split_once b'-') e
          ∙ split_once-append b'-' m q g in
        (let k : some p ≡ some q = ap (λ z. z.1) h in cc, ap (λ z. z.0) h)),
  append_assoc n (b'-' ∷ x) (b'-' ∷ p),
)
