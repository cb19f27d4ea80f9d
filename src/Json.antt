-- ===== src/Json.antt =====
-- The values that Go's JSON decoder makes of a Kubernetes object: `map[string]interface{}`,
-- `[]interface{}`, strings, booleans, numbers and nil. A map is a list of fields; a decoded list is
-- never the nil slice. The nil map is not decoded either, but merging can make one: it prints and
-- compares as the empty map, and JSON has null for it. A number is kept as the text that `fmt` prints for it, which is all that the
-- code reads of numbers.
pub mod Maps
pub mod Print
pub mod Equal
use config_policy_controller.Prelude.{
  ℕ, suc, String, Bool, true, false, Option, none, some, List, [], ◌∷◌, if◌then◌else◌,
}
use config_policy_controller.Prelude.Text.{str_eq}

mutual
  pub data Value : Type 0 where
    null nil_map : Value
    bool : Bool → Value
    num : String → Value
    str : String → Value
    obj : Fields → Value
    arr : Items → Value

  pub data Fields : Type 0 where
    end : Fields
    field : String → Value → Fields → Fields

  pub data Items : Type 0 where
    nil : Items
    cons : Value → Items → Items

abbrev pub items : Items → List Value
items nil = []
items (cons v vs) = v ∷ items vs

abbrev pub of_list : List Value → Items
of_list [] = nil
of_list (v ∷ vs) = cons v (of_list vs)

-- `len` of a map.
abbrev pub count : Fields → ℕ
count end = 0
count (field k v fs) = suc (count fs)

-- `m[key]`; a missing key is `none`, which the code mostly reads as nil.
abbrev pub lookup : String → Fields → Option Value
lookup key end = none
lookup key (field k v fs) = if str_eq k key then some v else lookup key fs

-- `m[key] = v`
abbrev pub insert : String → Value → Fields → Fields
insert key v end = field key v end
insert key v (field k w fs) = if str_eq k key then field k v fs else field k w (insert key v fs)

-- `delete(m, key)`
abbrev pub delete : String → Fields → Fields
delete key end = end
delete key (field k v fs) = if str_eq k key then delete key fs else field k v (delete key fs)

-- What reading a map gives where the key may be missing: nil then.
abbrev pub or_null : Option Value → Value
or_null none = null
or_null (some v) = v

-- The zero value of a value's Go type, as `reflect.Zero` gives it and `fmt` prints it. The zero
-- map and the zero slice print as the empty ones do.
abbrev pub zero_of : Value → Value
zero_of null = null
zero_of nil_map = nil_map
zero_of (bool b) = bool false
zero_of (num n) = num "0"
zero_of (str s) = str ""
zero_of (arr xs) = arr nil
zero_of (obj fs) = obj end

-- A copy through JSON, which makes null of a nil map.
unfoldable mutual
  pub json_copy : Value → Value
  json_copy null = null
  json_copy nil_map = null
  json_copy (bool b) = bool b
  json_copy (num n) = num n
  json_copy (str s) = str s
  json_copy (obj fs) = obj (copy_fields fs)
  json_copy (arr xs) = arr (copy_items xs)

  pub copy_fields : Fields → Fields
  copy_fields end = end
  copy_fields (field k v fs) = field k (json_copy v) (copy_fields fs)

  pub copy_items : Items → Items
  copy_items nil = nil
  copy_items (cons v vs) = cons (json_copy v) (copy_items vs)
