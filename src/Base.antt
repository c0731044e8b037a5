-- ===== src/Base.antt =====
-- Names that every other file shares: the libraries' names passed on, tests on numbers and texts,
-- lists measured by native numbers, and sorting.
mod Tests
mod Strings
mod Lists
mod Sort
mod Unique
pub use Tests.*
pub use Strings.*
pub use Lists.*
unfoldable pub use Strings.{str_eq, text, has_prefix, contains}
unfoldable pub use Lists.{lookup, put, erase}
unfoldable pub use Sort.{str_le, insert, sort_strings}
pub use Unique.{sort_strings-eq_of_perm, sort_strings_of_IsSorted}
pub use Sort.{IsSorted, sort_strings-perm, sort_strings-IsSorted, All-sort_strings, str_le_total}
pub use Prim.Native.Nat.{ℕ, zero, suc, ◌+◌, ◌-◌, ◌*◌, ◌/◌, ◌%◌, ◌^◌, ◌≤◌, ◌<◌}
pub use Prim.Native.String.{String}
pub use mathlib.Core.Path.{◌≡◌, refl, sym, ap, ◌∙◌}
pub use mathlib.Core.Logic.{◌≢◌, ◌↔◌, ◌⊎◌, inl, inr}
pub use mathlib.Core.Bool.{Bool, true, false, not, ◌&&◌, ◌||◌}
pub use mathlib.Core.Option.{Option, none, some}
pub use mathlib.Core.List.{List, [], ◌∷◌, ◌++◌, map, reverse}
pub use native.Mathlib.Omega.{arith}
