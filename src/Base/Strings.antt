-- ===== src/Base/Strings.antt =====
-- The functions of Go's package strings that the source uses, on bytes.
use kdmp.Base.Tests.{◌==◌, leb, if◌then◌else◌}
use kdmp.Base.Texts.{Text, text_eq, is_empty}
use Prim.Native.Nat.{ℕ}
use mathlib.Core.Bool.{Bool, true, false, ◌&&◌, ◌||◌}
use mathlib.Core.Option.{Option, none, some}
use mathlib.Core.List.{List, [], ◌∷◌, ◌++◌, reverse}

unfoldable pub cons_head : ℕ → List Text → List Text
cons_head c [] = (c ∷ []) ∷ []
cons_head c (t ∷ ts) = (c ∷ t) ∷ ts

-- strings.Split at a separator of one byte.
unfoldable pub split : ℕ → Text → List Text
unfolding cons_head
split sep [] = [] ∷ []
split sep (c ∷ s) = let rest = split sep s in if c == sep then [] ∷ rest else cons_head c rest

-- strings.Join.
unfoldable pub join : Text → List Text → Text
join sep [] = []
join sep (t ∷ []) = t
join sep (t ∷ u ∷ ts) = t ++ (sep ++ join sep (u ∷ ts))

-- strings.SplitN(s, sep, 2): `none` for the second part where the separator does not occur.
unfoldable pub split_once : ℕ → Text → Text × Option Text
split_once sep [] = ([], none)
split_once sep (c ∷ s) =
    let (a, b) = split_once sep s in if c == sep then ([], some s) else (c ∷ a, b)

-- unicode.IsSpace below 0x80; no white space beyond it occurs in the program's texts.
unfoldable pub is_space : ℕ → Bool
is_space c = (leb 9 c && leb c 13) || c == 32

unfoldable pub trim_left : (ℕ → Bool) → Text → Text
trim_left p [] = []
trim_left p (c ∷ s) = let rest = trim_left p s in if p c then rest else c ∷ s

-- strings.TrimFunc: both ends.
unfoldable pub trim_both : (ℕ → Bool) → Text → Text
unfolding trim_left
trim_both p s = reverse (trim_left p (reverse (trim_left p s)))

-- strings.TrimSpace.
unfoldable pub trim_space : Text → Text
unfolding trim_both is_space
trim_space s = trim_both is_space s

-- m[key] for a map of texts: "" where the key is missing.
unfoldable pub lookup_text : Text → List (Text × Text) → Text
lookup_text k [] = []
lookup_text k ((j, v) ∷ m) = if text_eq j k then v else lookup_text k m

-- m[key] = v.
unfoldable pub insert_text : Text → Text → List (Text × Text) → List (Text × Text)
insert_text k v [] = (k, v) ∷ []
insert_text k v ((j, w) ∷ m) = if text_eq j k then (k, v) ∷ m else (j, w) ∷ insert_text k v m

-- filepath.Join of two elements that hold no "." or ".." part and do not end in a slash.
unfoldable pub join_path : Text → Text → Text
join_path a b = if is_empty a then b else if is_empty b then a else a ++ (b'/' ∷ b)

unfoldable pub is_prefix : Text → Text → Bool
is_prefix [] s = true
is_prefix (c ∷ p) [] = false
is_prefix (c ∷ p) (d ∷ s) = let rest = is_prefix p s in if c == d then rest else false

-- bytes.Contains, with the text that is searched first.
unfoldable pub contains : Text → Text → Bool
unfolding is_prefix
contains [] p = is_prefix p []
contains (c ∷ s) p = let rest = contains s p in if is_prefix p (c ∷ s) then true else rest
