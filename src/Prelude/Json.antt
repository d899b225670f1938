-- ===== src/Prelude/Json.antt =====
-- What `json.loads` returns. `F` stands for Python's `float` and `int`, and an object has each key
-- once.
use Prim.Native.String.{String}
use mathlib.Core.Bool.{Bool, true, false, ◌&&◌, ◌||◌}
use mathlib.Core.Option.{Option, none, some}
use mathlib.Core.List.{List, [], ◌∷◌}
use pentagon5_foundation.Prelude.Tests.{str_eq, one_of, if◌then◌else◌}

mutual
  pub data Json (F : Type 0) : Type 0 where
    null : Json F
    bool : Bool → Json F
    number : F → Json F
    text : String → Json F
    array : Items F → Json F
    object : Members F → Json F

  pub data Items (F : Type 0) : Type 0 where
    nil : Items F
    cons : Json F → Items F → Items F

  pub data Members (F : Type 0) : Type 0 where
    end : Members F
    member : String → Json F → Members F → Members F

module _ {F : Type 0} where
  -- `d.get(key)`
  unfoldable pub get : String → Members F → Option (Json F)
  get key end = none
  get key (member k v d) = if str_eq k key then some v else get key d

  -- `list(a)`
  unfoldable pub elements : Items F → List (Json F)
  elements nil = []
  elements (cons v a) = v ∷ elements a

  unfoldable pub has : String → Members F → Bool
  has key end = false
  has key (member k v d) = str_eq k key || has key d

  -- `set(d) - names`, as a test for the empty set.
  unfoldable pub keys_within : List String → Members F → Bool
  keys_within names end = true
  keys_within names (member k v d) = one_of k names && keys_within names d

  -- `names <= set(d)`
  unfoldable pub has_all : List String → Members F → Bool
  has_all [] d = true
  has_all (k ∷ ks) d = has k d && has_all ks d

  -- `set(d) == names`
  unfoldable pub keys_equal : List String → Members F → Bool
  keys_equal names d = keys_within names d && has_all names d

  -- `v == s` for a text `s`
  abbrev pub equals_text : Option (Json F) → String → Bool
  equals_text (some (text t)) s = str_eq t s
  equals_text _ s = false

  -- Python's `None`, also as a missing member.
  abbrev pub is_null : Option (Json F) → Bool
  is_null none = true
  is_null (some null) = true
  is_null _ = false
