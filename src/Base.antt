-- ===== src/Base.antt =====
-- The names that the other modules share: the libraries', passed on, and those of the children.
mod Tests
mod Texts
mod Lists
pub mod Results
pub mod Int
pub mod Strings
pub mod Decimals
pub use Tests.*
unfoldable pub use Texts.{text_eq, format}
pub use Texts.{Text, codes, is_empty, text_eq_iff}
pub use Lists.*
pub use Results.{
  ErrorKind, not_found, already_exists, job_already_running, out_of_job_resources,
  already_repo_exist, other, Error, errorf, is_not_found, is_already_exists, Result, ok, err, Call,
  Result-cases,
}
pub use Prim.Native.Nat.{ℕ, zero, suc, ◌+◌, ◌-◌, ◌≤◌, ◌<◌}
pub use Prim.Native.String.{String}
pub use mathlib.Core.Path.{◌≡◌, refl, sym, ap, subst, ◌∙◌}
pub use mathlib.Core.Logic.{◌≢◌, ◌↔◌, ◌⊎◌, inl, inr}
pub use mathlib.Core.Bool.{Bool, true, false, not, ◌&&◌, ◌||◌}
pub use mathlib.Core.Option.{Option, none, some}
pub use mathlib.Core.List.{List, [], ◌∷◌, ◌++◌, map}
pub use native.Mathlib.Omega.{arith}
