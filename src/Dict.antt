-- ===== src/Dict.antt =====
-- Python's `dict`: an association list in insertion order, over any key with an equality test.
mod Distinct
unfoldable pub use Distinct.{get, has, put, remove, map_values, Dict}
pub use Distinct.{
  get-put, get-remove, has-eq, get-map_values, IsDistinct, put-IsDistinct, remove-IsDistinct,
  map_values-IsDistinct, length-put, length-remove-le, length-map_values, dict_laws, remove_absent,
}
