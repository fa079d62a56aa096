-- ===== src/Base/Json.antt =====
-- JSON values as Python holds them, and the operations that the code applies to them.
mod Floats
pub use Floats.{Float, finite, infinite, nan}
use Prim.Native.Nat.{ℕ, zero, suc, ◌<◌}
use native.Mathlib.Omega.{arith}
use auditcore.Base.Lists.{length}
use Prim.Native.String.{String}
use mathlib.Core.Path.{◌≡◌, refl, ap}
use mathlib.Core.Bool.{Bool, true, false, not}
use mathlib.Core.Option.{Option, none, some}
use mathlib.Core.List.{List, [], ◌∷◌}
use text.Mathlib.Text.{◌==◌ as str_eq}
use auditcore.Base.Tests.{◌==◌, if◌then◌else◌}
use auditcore.Base.Text.{Text, codes}
use auditcore.Base.Error.{Result, ok, raised, attribute_error, type_error, key_error}

-- `negsuc n` is -(n + 1).
pub data ℤ : Type 0 where
  pos negsuc : ℕ → ℤ

-- What `json.loads` and a database driver return. An object has each key once.
mutual
  pub data Value : Type 0 where
    null : Value
    bool : Bool → Value
    int : ℤ → Value
    float : Float → Value
    str : Text → Value
    arr : Items → Value
    obj : Fields → Value

  pub data Fields : Type 0 where
    end : Fields
    field : String → Value → Fields → Fields

  pub data Items : Type 0 where
    nil : Items
    cons : Value → Items → Items

unfoldable pub items : Items → List Value
items nil = []
items (cons v vs) = v ∷ items vs

unfoldable pub from_items : List Value → Items
from_items [] = nil
from_items (v ∷ vs) = cons v (from_items vs)

unfoldable pub keys : Fields → List Value
keys end = []
keys (field k v fs) = str (codes k) ∷ keys fs

-- A dict that is written out.
unfoldable pub fields : List (String × Value) → Fields
fields [] = end
fields ((k, v) ∷ rest) = field k v (fields rest)

abbrev pub or_null : Option Value → Value
or_null none = null
or_null (some v) = v

characters : Text → List Value
characters [] = []
characters (c ∷ s) = str (c ∷ []) ∷ characters s

-- `d.get(k)` of a dict
unfoldable pub lookup : String → Fields → Option Value
lookup k end = none
lookup k (field j v fs) = if str_eq j k then some v else lookup k fs

-- `if v:`
unfoldable pub truthy : Value → Bool
truthy null = false
truthy (bool b) = b
truthy (int (pos zero)) = false
truthy (int _) = true
truthy (float (finite zero e s)) = false
truthy (float _) = true
truthy (str []) = false
truthy (str (c ∷ s)) = true
truthy (arr nil) = false
truthy (arr (cons v vs)) = true
truthy (obj end) = false
truthy (obj (field k v fs)) = true

or_else : Option Value → Value → Value
or_else none d = d
or_else (some v) d = v

-- `v.get(k, d)`: only a dict has the method.
unfoldable pub get_or : Value → String → Value → Result Value
unfolding or_else
get_or (obj fs) k d = ok (or_else (lookup k fs) d)
get_or _ k d = raised attribute_error

item_of : Option Value → Result Value
item_of none = raised key_error
item_of (some v) = ok v

-- `v[k]` for a text `k`
unfoldable pub index : Value → String → Result Value
unfolding item_of
index (obj fs) k = item_of (lookup k fs)
index _ k = raised type_error

-- `for x in v`
unfoldable pub iterate : Value → Result (List Value)
unfolding characters
iterate (str s) = ok (characters s)
iterate (arr vs) = ok (items vs)
iterate (obj fs) = ok (keys fs)
iterate _ = raised type_error

-- `v or d`
unfoldable pub or_default : Value → Value → Value
or_default v d = if truthy v then v else d

-- The parts of the runtime that turn a value into text, which the program only passes on.
pub record Runtime : Type 0 where
  -- `repr(v)`
  pub repr : Value → Text
  -- `json.dumps(v, indent=2, default=str)`
  pub dumps : Value → Text

-- `str(v)`: a text stands for itself.
unfoldable pub py_str : Runtime → Value → Text
py_str rt (str s) = s
py_str rt v = rt.repr v

pub items-from_items : (vs : List Value) → items (from_items vs) ≡ vs
unfolding items from_items
items-from_items [] = refl
items-from_items (v ∷ vs) = ap (λ (t : List Value). v ∷ t) (items-from_items vs)

-- A value that is taken for true and can be iterated has a first item.
pub iterate-truthy :
    (v : Value) (vs : List Value) → truthy v ≡ true → iterate v ≡ ok vs → 0 < length vs
unfolding truthy iterate items keys
iterate-truthy (str (c ∷ s)) vs t e = ground arith
iterate-truthy (arr (cons w ws)) vs t e = ground arith
iterate-truthy (obj (field k w fs)) vs t e = ground arith
iterate-truthy _ vs t e = cc

module _ (fs : Fields) (k : String) {v : Value} (there : lookup k fs ≡ some v) where
  pub get_or-there : (d : Value) → get_or (obj fs) k d ≡ ok v
  unfolding get_or
  get_or-there d = rw there

  pub index-there : index (obj fs) k ≡ ok v
  unfolding index
  index-there = rw there

pub iterate-from_items : (vs : List Value) → iterate (arr (from_items vs)) ≡ ok vs
unfolding iterate
iterate-from_items vs = ap ok (items-from_items vs)
