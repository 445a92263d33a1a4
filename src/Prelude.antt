-- ===== src/Prelude.antt =====
-- The names that the other modules share: those of the libraries, passed on, and those of the
-- children.
mod Tests
mod Results
mod Lists
mod Text
mod Int
mod Tables
pub use Tests.*
pub use Results.*
pub use Text.{chars, remove_char, str_take, is_space, is_blank, str_len, str_lt, lowers_to}
unfoldable pub use Text.{strip}
pub use Text.Strip.{strip_idem, has_space, strip-no_space}
pub use Text.Order.{str_lt_asym}
pub use Lists.{
  length, is_empty, any, all, filter, find, All, All-append, All-map, length-append,
  length-filter-le, length-filter-sorted, filter_none, contains-keys, lookup-keys, length-map,
  contains, is_text, Dict, lookup, keys,
}
unfoldable pub use Lists.{sorted, insert_sorted}
pub use Tables.{
  some_injective, get_row, put_row, delete_rows, get_row-key, get_row-All, get_row-put_row,
  get_row-put_row_other, get_row-append, get_row-append_none, put_row-All, rows_under,
  rows_under-append, rows_under-put_row, rows_under-none, occurrences, remove, occurrences-remove,
  occurrences-remove_other,
}
pub use Int.{ℤ, pos, negsuc, compare_ℤ, int_eq, pos_part, neg_part}
pub use Prim.Native.Nat.{ℕ, zero, suc, ◌+◌, ◌-◌, ◌*◌, ◌≤◌, ◌<◌}
pub use Prim.Native.String.{String}
pub use mathlib.Core.Path.{◌≡◌, refl, sym, ap, ◌∙◌, subst}
pub use mathlib.Core.Logic.{◌≢◌, ◌↔◌, ◌⊎◌, inl, inr}
pub use mathlib.Core.Bool.{Bool, true, false, not, ◌&&◌, ◌||◌}
pub use mathlib.Core.Option.{Option, none, some}
pub use mathlib.Core.List.{List, [], ◌∷◌, ◌++◌, map}
pub use native.Mathlib.Omega.{arith}
pub use text.Mathlib.Text.{◌==◌}
pub use text.Mathlib.TextEquality.{eq_iff}
