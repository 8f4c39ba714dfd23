-- ===== src/Base/Decimals.antt =====
-- strconv.Atoi on a 64-bit machine.
use Prim.Native.Nat.{ℕ, zero, suc, ◌+◌, ◌-◌, ◌*◌, ◌^◌}
use mathlib.Core.Bool.{Bool, true, false, ◌&&◌}
use mathlib.Core.Option.{Option, none, some}
use mathlib.Core.List.{[], ◌∷◌}
use kdmp.Base.Tests.{leb, ltb, ◌==◌, if◌then◌else◌}
use kdmp.Base.Texts.{Text, format}
use kdmp.Base.Results.{Result, ok, err, errorf}
use kdmp.Base.Int.{ℤ, pos, negsuc}

-- The value of decimal digits after those that gave n.
unfoldable pub digits : ℕ → Text → Option ℕ
digits n [] = some n
digits n (c ∷ s) =
    let rest = digits (10 * n + (c - b'0')) s in if leb b'0' c && leb c b'9' then rest else none

-- At least one digit.
unfoldable pub number : Text → Option ℕ
number [] = none
number (c ∷ s) = digits 0 (c ∷ s)

abbrev negated : ℕ → ℤ
negated zero = pos 0
negated (suc n) = negsuc n

signed : Text → Bool → Option ℕ → Result ℤ
signed s minus none = err (errorf (format "strconv.Atoi: parsing %q: invalid syntax" (s ∷ [])))
signed s false (some n) =
    if ltb n (2 ^ 63)
    then ok (pos n)
    else err (errorf (format "strconv.Atoi: parsing %q: value out of range" (s ∷ [])))
signed s true (some n) =
    if leb n (2 ^ 63)
    then ok (negated n)
    else err (errorf (format "strconv.Atoi: parsing %q: value out of range" (s ∷ [])))

unfoldable pub atoi : Text → Result ℤ
unfolding signed
atoi [] = signed [] false none
atoi (c ∷ s) =
    if c == b'-'
    then signed (c ∷ s) true (number s)
    else if c == b'+'
    then signed (c ∷ s) false (number s)
    else signed (c ∷ s) false (number (c ∷ s))
