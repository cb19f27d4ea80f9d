-- ===== src/Json/Equal.antt =====
-- `reflect.DeepEqual` on decoded values: lists by position, maps by key.
use config_policy_controller.Prelude.{Bool, true, false, ◌&&◌, ◌==◌, Option, none, some}
use config_policy_controller.Prelude.Text.{str_eq}
use config_policy_controller.Json.{
  Value, null, nil_map, bool, num, str, obj, arr, Fields, end, field, Items, nil, cons, count,
  lookup,
}

abbrev bool_eq : Bool → Bool → Bool
bool_eq true b = b
bool_eq false true = false
bool_eq false false = true

abbrev found_equal : (Value → Bool) → Option Value → Bool
found_equal eq none = false
found_equal eq (some w) = eq w

unfoldable mutual
  pub deep_equal : Value → Value → Bool
  deep_equal null null = true
  deep_equal nil_map nil_map = true
  deep_equal (bool a) (bool b) = bool_eq a b
  deep_equal (num a) (num b) = str_eq a b
  deep_equal (str a) (str b) = str_eq a b
  deep_equal (obj fs) (obj gs) = count fs == count gs && fields_equal fs gs
  deep_equal (arr xs) (arr ys) = items_equal xs ys
  deep_equal _ _ = false

  -- The second map has the entries of the first one.
  pub fields_equal : Fields → Fields → Bool
  fields_equal end gs = true
  fields_equal (field k v fs) gs = found_equal (deep_equal v) (lookup k gs) && fields_equal fs gs

  pub items_equal : Items → Items → Bool
  items_equal nil nil = true
  items_equal (cons v vs) (cons w ws) = deep_equal v w && items_equal vs ws
  items_equal _ _ = false
