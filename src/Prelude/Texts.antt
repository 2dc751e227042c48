-- ===== src/Prelude/Texts.antt =====
-- Python's `set` of strings, as the list of its members in the order of insertion.
use Prim.Native.String.{String}
use text.Mathlib.Text.{◌==◌ as str_eq}
use text.Mathlib.TextEquality.{eq_iff}
use text.Mathlib.TextPositions.{eq_refl}
use mathlib.Core.Path.{◌≡◌}
use mathlib.Core.Bool.{Bool, true, false, ◌||◌}
use mathlib.Core.List.{List, [], ◌∷◌, ◌++◌}
use native.Mathlib.Omega.{arith}
use package.project_fifty.Prelude.Tests.{if◌then◌else◌}
unfoldable pub use text.Mathlib.Text.{◌==◌ as str_eq}
pub use text.Mathlib.TextEquality.{eq_iff}
pub use text.Mathlib.TextPositions.{eq_refl}

-- `key in keys`
unfoldable pub contains : String → List String → Bool
contains key [] = false
contains key (other ∷ keys) = str_eq other key || contains key keys

-- `keys.add(key)`
unfoldable pub add_key : String → List String → List String
unfolding contains
add_key key keys = if contains key keys then keys else keys ++ key ∷ []

pub contains-snoc :
    (key other : String) (keys : List String)
    → contains key (keys ++ other ∷ []) ≡ (contains key keys || str_eq other key)
unfolding contains
contains-snoc key other [] = ground arith
contains-snoc key other (k ∷ keys) = ground (arith, contains-snoc key other keys)

-- A set that has a new key added holds that key and what it held before.
pub contains-add_key :
    (key other : String) (keys : List String)
    → contains key (add_key other keys) ≡ (contains key keys || str_eq other key)
unfolding add_key
contains-add_key key other keys = ground (arith, contains-snoc key other keys, eq_iff other key)

pub contains-add_key_self :
    (key : String) (keys : List String) → contains key (add_key key keys) ≡ true
contains-add_key_self key keys = rw contains-add_key (ground (arith, eq_iff key key))
