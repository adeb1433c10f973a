-- ===== src/Js.antt =====
-- JavaScript values, property access and `JSON.stringify`, as the tools under tools/ use them.
mod Data
mod Stringify
pub mod Text
pub mod Regex
pub use Data.{
  Value, undefined, null, bool, num, str, arr, obj, Items, nil, cons, Props, end, prop,
  elements-of_list, read-write, read-write_self, same-true, same-apart, same_refl_text, IsText,
  truthy-or,
}
unfoldable pub use Data.{
  items, of_list, elements, read, write, get, spread, truthy, or_else, same, text_or,
}
unfoldable pub use Stringify.{stringify, decimal}
