-- ===== src/Base.antt =====
-- The names that the modules share: the libraries', passed on, and those of the children.
mod Tests
mod Lists
mod Text
mod Byte
pub use Tests.*
pub use Lists.*
unfoldable pub use Byte.{all_bytes}
pub use Byte.{
  AreBytes, all_bytes-AreBytes, AreBytes-get_or, AreBytes-append, AreBytes-take, AreBytes-drop,
  zeros-AreBytes, to_string-AreBytes,
}
unfoldable pub use Text.{text_eq, to_string, atoi, scan, same_ignoring_case, c_str}
pub use Text.{
  Bytes, codes, text_eq_refl, text_eq→eq, ℤ, pos, negsuc, pos_part, int_max, atoi-to_string,
  atoi-c_str, atoi-to_string_append, length-to_string,
}
pub use Prim.Native.Nat.{ℕ, zero, suc, ◌+◌, ◌-◌, ◌*◌, ◌/◌, ◌%◌, ◌^◌, ◌≤◌, ◌<◌, min}
pub use mathlib.Core.Path.{◌≡◌, refl, sym, ap, subst, ◌∙◌}
pub use mathlib.Core.Logic.{◌≢◌, ◌↔◌, ◌⊎◌, inl, inr}
pub use mathlib.Core.Bool.{Bool, true, false, not, ◌&&◌, ◌||◌}
pub use mathlib.Core.Option.{Option, none, some}
pub use mathlib.Core.List.{List, [], ◌∷◌, ◌++◌, map, append_assoc}
pub use native.Mathlib.Omega.{arith}
