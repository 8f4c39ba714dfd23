-- ===== src/Base/Texts.antt =====
-- Go strings: sequences of bytes. `len` is `length`, `+` is `++`, `s[:n]` is `take n s`.
use Prim.Native.Nat.{ℕ}
use Prim.Native.Char.{code}
use Prim.Native.String.{String}
use mathlib.Core.Path.{◌≡◌}
use mathlib.Core.Logic.{◌↔◌}
use mathlib.Core.Bool.{Bool, true, false, ◌&&◌}
use mathlib.Core.List.{List, [], ◌∷◌, ◌++◌}
use native.Mathlib.Omega.{arith}
use kdmp.Base.Tests.{◌==◌}

abbrev pub Text : Type 0
Text = List ℕ

-- The bytes of a literal; every literal of the source is ASCII.
abbrev pub codes : String → Text
codes String.[] = []
codes (String.◌∷◌ c s) = code c ∷ codes s

-- `s == ""`.
abbrev pub is_empty {ℓ} : {A : Type ℓ} → List A → Bool
is_empty [] = true
is_empty (_ ∷ _) = false

unfoldable pub text_eq : Text → Text → Bool
text_eq [] [] = true
text_eq [] (_ ∷ _) = false
text_eq (_ ∷ _) [] = false
text_eq (a ∷ s) (b ∷ t) = a == b && text_eq s t

pub text_eq_iff : (s t : Text) → (text_eq s t ≡ true) ↔ (s ≡ t)
unfolding text_eq
text_eq_iff [] [] = ground arith
text_eq_iff [] (b ∷ t) = ground arith
text_eq_iff (a ∷ s) [] = ground arith
text_eq_iff (a ∷ s) (b ∷ t) = ground (arith, text_eq_iff s t)

-- `fmt.Sprintf` for verbs that each take one text (%s, %v): the verbs are replaced in order.
format_codes : Text → List Text → Text
format_codes [] args = []
format_codes (c ∷ []) args = c ∷ []
format_codes (c ∷ d ∷ s) [] = c ∷ d ∷ s
format_codes (c ∷ d ∷ s) (a ∷ args) = elim (c == b'%') [
  | true ↦ a ++ format_codes s args
  | false ↦ c ∷ format_codes (d ∷ s) (a ∷ args)
]

unfoldable pub format : String → List Text → Text
unfolding format_codes
format s args = format_codes (codes s) args
