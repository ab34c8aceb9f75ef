-- ===== src/PaymentSearch/Retain.antt =====
-- `copyRetained` of apps/api/src/payment-search.ts: the bounded copy of a probed value.
-- A value is a finite tree, so the search for cycles through `ancestors` finds none.
pub mod Shape
pub mod Sound
pub mod Laws
mod Tests
use aqua_orbital.Prelude.{
  ℕ, suc, ◌+◌, ◌-◌, ◌^◌, Bool, true, false, ◌&&◌, ◌||◌, not, List, Option, none, some, leb, ltb,
  ◌==◌, length, if◌then◌else◌,
}
use aqua_orbital.Text.{value_from, is_numeral}

-- What `Object.getPrototypeOf` answers, as far as the copy distinguishes it.
pub data Prototype : Type 0 where
  array_prototype object_prototype null_prototype other_prototype : Prototype

-- An own key of an object: a text, or a symbol.
pub data Key : Type 0 where
  name : List ℕ → Key
  symbol : Key

-- A JavaScript value. `other` is `undefined`, a function or a symbol, and `fraction` a number that is
-- not an integer. The own properties of an array leave out its `length`, which is a field.
mutual
  pub data Value : Type 0 where
    null : Value
    boolean : Bool → Value
    text : List ℕ → Value
    integer : (negative : Bool) → ℕ → Value
    fraction : Value
    bigint : (negative : Bool) → ℕ → Value
    other : Value
    array : Prototype → ℕ → Properties → Value
    object : Prototype → Properties → Value

  -- A property is plain if it is enumerable and holds a value rather than accessors.
  pub data Properties : Type 0 where
    nil : Properties
    property : Key → (plain : Bool) → Value → Properties → Properties

-- The counters `nodes` and `textUnits`.
pub record Counters : Type 0 where
  pub nodes : ℕ
  pub text_units : ℕ

abbrev pub max_nodes : ℕ
max_nodes = 8192

abbrev pub max_depth : ℕ
max_depth = 24

abbrev pub max_text_units : ℕ
max_text_units = 1048576

-- `Number.MAX_SAFE_INTEGER`
abbrev pub max_safe : ℕ
max_safe = 9007199254740991

abbrev pub size_of : Properties → ℕ
size_of nil = 0
size_of (property k plain v ps) = suc (size_of ps)

abbrev pub is_symbol : Key → Bool
is_symbol (name s) = false
is_symbol symbol = true

abbrev pub key_units : Key → ℕ
key_units (name s) = length s
key_units symbol = 0

abbrev pub some_symbol : Properties → Bool
some_symbol nil = false
some_symbol (property k plain v ps) = is_symbol k || some_symbol ps

-- The test that an array makes of each of its keys; an object makes none.
abbrev pub index_ok : Option ℕ → Key → Bool
index_ok none k = true
index_ok (some len) (name s) = is_numeral s && ltb (value_from 0 s) len
index_ok (some len) symbol = false

abbrev pub is_array_prototype : Prototype → Bool
is_array_prototype array_prototype = true
is_array_prototype _ = false

abbrev pub is_object_prototype : Prototype → Bool
is_object_prototype object_prototype = true
is_object_prototype null_prototype = true
is_object_prototype _ = false

-- The tests of an array or an object before its properties are copied.
abbrev pub array_ok : Prototype → ℕ → Properties → Bool
array_ok p len ps =
    is_array_prototype p
    && not (some_symbol ps)
    && leb (size_of ps + 1) 513
    && leb len 512
    && (size_of ps + 1 == len + 1)

abbrev pub object_ok : Prototype → Properties → Bool
object_ok p ps = is_object_prototype p && not (some_symbol ps) && leb (size_of ps) 512

abbrev pub visited : Counters → Counters
visited c = record c { nodes = c.nodes + 1 }

abbrev pub add_units : ℕ → Counters → Counters
add_units n c = record c { text_units = c.text_units + n }

abbrev pub units_ok : Counters → Bool
units_ok c = leb c.text_units max_text_units

-- The entry test of `copy`, after `++nodes`.
abbrev pub entry_ok : ℕ → Counters → Bool
entry_ok depth c = leb c.nodes max_nodes && leb depth max_depth

abbrev pub keep_if {ℓ} : {A : Type ℓ} → Bool → A → Option A
keep_if true a = some a
keep_if false a = none

infixl 5 ◌>>=◌
abbrev pub ◌>>=◌ {ℓ κ} : {A : Type ℓ} {B : Type κ} → Option A → (A → Option B) → Option B
none >>= f = none
some a >>= f = f a

-- `none` is the error PAYMENT_VALUE_INVALID.
unfoldable mutual
  pub copy : ℕ → Value → Counters → Option (Value × Counters)
  copy depth null c = keep_if (entry_ok depth (visited c)) (null, visited c)
  copy depth (boolean b) c = keep_if (entry_ok depth (visited c)) (boolean b, visited c)
  copy depth (text s) c =
      let c' = add_units (length s) (visited c) in
      keep_if (entry_ok depth (visited c) && units_ok c') (text s, c')
  copy depth (integer neg n) c =
      keep_if (entry_ok depth (visited c) && leb n max_safe) (integer neg n, visited c)
  copy depth fraction c = none
  copy depth (bigint neg n) c =
      keep_if (entry_ok depth (visited c) && ltb n (2 ^ 256)) (bigint neg n, visited c)
  copy depth other c = none
  copy depth (array p len ps) c = do
    c' ← keep_if (entry_ok depth (visited c) && array_ok p len ps) (visited c)
    (ps', c'') ← copy_properties (some len) (depth + 1) ps c'
    some (array array_prototype len ps', c'')
  copy depth (object p ps) c = do
    c' ← keep_if (entry_ok depth (visited c) && object_ok p ps) (visited c)
    (ps', c'') ← copy_properties none (depth + 1) ps c'
    some (object p ps', c'')

  pub copy_properties : Option ℕ → ℕ → Properties → Counters → Option (Properties × Counters)
  copy_properties len depth nil c = some (nil, c)
  copy_properties len depth (property k plain v ps) c = do
    let counted = add_units (key_units k) c
    c' ← keep_if (units_ok counted && index_ok len k && plain) counted
    (v', c'') ← copy depth v c'
    (ps', c''') ← copy_properties len depth ps c''
    some (property k true v' ps', c''')

-- `copyRetained`
unfoldable pub retain : Value → Option Value
retain v = do (w, c) ← copy 0 v (record { nodes = 0; text_units = 0 }); some w
