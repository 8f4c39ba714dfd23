-- ===== src/Drivers/Table.antt =====
-- The table of drivers as a map.
use kdmp.Base.{
  false, some, [], ◌∷◌, Text, ◌≡◌, inl, inr, refl, ok, text_eq, text_eq_iff, Bool-cases,
}
use kdmp.Drivers.{Driver, Registry, insert, add, get}

module _ {W F : Type 0} where
  get_same : (name : Text) (d : Driver W F) (m : Registry W F) → get name (insert name d m) ≡ ok d
  unfolding insert get
  get_same name d [] = rw ((text_eq_iff name name).1 refl) refl
  get_same name d ((n, e) ∷ m) = elim (Bool-cases (text_eq n name)) [
    | inl h ↦ rw (h, insert, h, get) refl
    | inr h ↦ rw (h, insert, h, get) (get_same name d m)
  ]

  get_other :
      (name other : Text) (d : Driver W F) (m : Registry W F)
      → text_eq name other ≡ false
      → get other (insert name d m) ≡ get other m
  unfolding insert get
  get_other name other d [] h = rw h refl
  get_other name other d ((n, e) ∷ m) h = elim (Bool-cases (text_eq n name)) [
    | inl g ↦ let q : text_eq n other ≡ false = rw ((text_eq_iff n name).0 g) h in rw (g, q) refl
    | inr g ↦ elim (Bool-cases (text_eq n other)) [
      | inl q ↦ rw (g, q) refl
      | inr q ↦ rw (g, q) (get_other name other d m h)
    ]
  ]

-- After a driver was added, Get finds it under its name, and finds under every other name what it
-- found before.
pub get-add :
    {W F : Type 0} (d : Driver W F) (m : Registry W F) (other : Text)
    → (get d.name (add (some d) m).0 ≡ ok d)
      × (text_eq d.name other ≡ false → get other (add (some d) m).0 ≡ get other m)
unfolding add
get-add d m other = (get_same d.name d m, get_other d.name other d m)
