-- ===== src/Tests/Labels.antt =====
-- GetValidLabel at a label of 64 bytes, where a hyphen stays at the end of the result.
use kdmp.Base.{
  Text, codes, length, take, ◌≤◌, ◌<◌, ◌≡◌, ◌⊎◌, ◌==◌, ◌++◌, arith, refl, ltb, true, false, Bool,
}
use mathlib.Core.List.{reverse}
use kdmp.Jobs.Labels.{get_valid_label, StartsWithout, length-get_valid_label}

abbrev truncate : Text → kdmp.Base.ℕ → Text
truncate s n = take n s

abbrev label : Text
label = codes "volume-snapshot-of-the-database-in-the-namespace-of-the-shop1-" ++ codes ".x"

hyphen_stays :
    get_valid_label truncate label
    ≡ codes "volume-snapshot-of-the-database-in-the-namespace-of-the-shop1-"
unfolding get_valid_label kdmp.Base.Strings.trim_both kdmp.Base.Strings.trim_left
hyphen_stays = refl

length-get_valid_label_example :
    (length (get_valid_label truncate label) ≤ 63)
    × ((length label ≤ 63) × (get_valid_label truncate label ≡ label)
        ⊎ (63 < length label)
          × StartsWithout (λ c. c == b'.') (reverse (get_valid_label truncate label)))
length-get_valid_label_example = length-get_valid_label truncate label (omega arith)
