-- ===== src/Base.antt =====
-- The names that the other modules share: the libraries', passed on, and those of the children.
mod Tests
mod Int
mod Lists
mod Strings
mod Keyed
mod Sums
mod Sorting
mod Decimal
pub use Tests.*
pub use Int.{ℤ, pos, negsuc, pos_part, neg_part, sub_ℕ, ◌≤ℤ◌, ltb_ℤ, leb_ℤ, eqb_ℤ}
pub use Int.{+ℤ_parts, eq_of_parts, int_laws, eqb_ℤ→eq, eqb_ℤ_refl}
unfoldable pub use Int.{◌+ℤ◌}
pub use Keyed.*
unfoldable pub use Sums.{sum_from, total, sum}
pub use Sums.{total-sum, sum-append}
unfoldable pub use Sorting.{insert_by, sort_by}
pub use Sorting.{Ascending, sort_by-Ascending, sum-sort_by}
pub use Lists.*
pub use Strings.{Text, text, same}
unfoldable pub use Strings.{Text-discrete}
pub use Prim.Native.Nat.{ℕ, zero, suc, ◌+◌, ◌-◌, ◌*◌, ◌/◌, ◌%◌, ◌^◌, ◌≤◌, ◌<◌}
pub use Prim.Native.String.{String}
pub use mathlib.Core.Path.{◌≡◌, refl, sym, ap, ap₂, subst, ◌∙◌}
pub use mathlib.Core.Logic.{◌≢◌, ◌↔◌, ◌⊎◌, inl, inr}
pub use mathlib.Core.Bool.{Bool, true, false}
unfoldable pub use mathlib.Core.Bool.{not, ◌&&◌, ◌||◌, xor}
pub use mathlib.Core.Option.{Option, none, some}
pub use mathlib.Core.List.{List, [], ◌∷◌, ◌++◌, map}
pub use native.Mathlib.Omega.{arith}
unfoldable pub use Decimal.{are_digits, read_digits, int_of, digits, str_of}
pub use Decimal.{is_ascii_digit, int_of-str_of, are_digits-str_of, str_of-filled, digits-fuel}
