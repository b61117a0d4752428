-- ===== src/Prelude.antt =====
-- The names that the other modules share: the libraries', passed on, and those of the children.
mod Tests
mod Lists
mod Outcome
mod Sort
pub mod Loops
pub mod Bytes
pub mod Bits
pub mod Sets
pub use Tests.*
unfoldable pub use Lists.{all_of, filter_by, range, elem, list_eq, distinct}
pub use Lists.{
  length, get_elem?, get_or, take, drop, replicate, sum_by, All, length-append, sum_by-append,
  All-append, All-imp, In, All-In, In-append_left, In-append_right, Pairwise, Pairwise-snoc,
  list_eq→eq,
}
unfoldable pub use Outcome.{traverse, fold_result}
pub use Outcome.{
  Failure, validation_error, format_error, assertion_error, index_error, key_error, type_error,
  value_error, Result, ok, err, ◌>>=◌, ◌>>◌, raise_if, >>=-eq-ok, >>=-then, raise_if-eq-ok,
  ok-injective, Result-cases,
}
unfoldable pub use Sort.{insert_sorted, sorted}
pub use Sort.{sum_by-sorted, All-sorted}
pub use Prim.Native.Nat.{
  ℕ, zero, suc, ◌+◌, ◌-◌, ◌*◌, ◌/◌, ◌%◌, ◌^◌, ◌≤◌, ◌<◌, max, min, compare, Ordering, bit_and,
}
pub use Prim.Native.String.{String}
pub use mathlib.Core.Path.{◌≡◌, refl, sym, ap, ap₂, subst, ◌∙◌}
pub use mathlib.Core.Logic.{◌≢◌, ◌↔◌, ◌⊎◌, inl, inr}
pub use mathlib.Core.Bool.{Bool, true, false, not, ◌&&◌, ◌||◌}
pub use mathlib.Core.Option.{Option, none, some}
pub use mathlib.Core.List.{
  List, [], ◌∷◌, ◌++◌, map, foldl, reverse, append-nil, append_assoc, map-append,
}
pub use native.Mathlib.Omega.{arith}
pub use text.Mathlib.Text.{◌==◌ as str_eq}
pub use text.Mathlib.TextEquality.{eq_iff}
