-- ===== src/Text.antt =====
-- Go strings, as lists of runes: a Go string that is valid UTF-8 is the list of its code points.
-- The functions are those of package `strings` that the program calls, written out.
mod Defs
mod Split
mod Decimal
mod Entries
pub use Defs.*
unfoldable pub use Defs.{
  eqb, is_space, drop_space, trim_space, is_blank, has_prefix, drop_prefix, contains, trim_right,
  lower_ascii,
}
pub use Split.*
unfoldable pub use Split.{split_on, split_pair, push, index_of, join}
pub use Decimal.*
unfoldable pub use Decimal.{decimal, decimal_fuel, read_decimal}
pub use Entries.*
unfoldable pub use Entries.{find_entry, set_entry, delete_entry, byte_length}
