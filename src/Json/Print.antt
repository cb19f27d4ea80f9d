-- ===== src/Json/Print.antt =====
-- `fmt.Sprint` of a decoded value, and `sortAndSprint` of controllers/configurationpolicy_utils.go.
-- `fmt` prints a map in the order of its keys.
use config_policy_controller.Prelude.{String, ◌≡◌, refl, Bool, true, false, List, [], ◌∷◌, map}
use config_policy_controller.Prelude.Text.{◌<>◌, str_ltb, join}
use config_policy_controller.Prelude.Sort.{sort_by, insert_by}
use config_policy_controller.Json.{
  Value, null, nil_map, bool, num, str, arr, obj, Items, nil, cons, Fields, end, field,
}

abbrev pub bool_text : Bool → String
bool_text true = "true"
bool_text false = "false"

abbrev key_less : String × String → String × String → Bool
key_less a b = str_ltb a.0 b.0

-- `map[k:v k:v]`, from the printed fields.
abbrev map_text : List (String × String) → String
map_text kvs =
    "map[" <> (join " " (map (λ (kv : String × String). kv.0 <> (":" <> kv.1)) kvs) <> "]")

abbrev list_text : List String → String
list_text texts = "[" <> (join " " texts <> "]")

unfoldable mutual
  unfolding sort_by insert_by

  pub sprint : Value → String
  sprint null = "<nil>"
  sprint nil_map = map_text []
  sprint (bool b) = bool_text b
  sprint (num n) = n
  sprint (str s) = s
  sprint (arr xs) = list_text (sprint_items xs)
  sprint (obj fs) = map_text (sort_by key_less (sprint_fields fs))

  pub sprint_items : Items → List String
  sprint_items nil = []
  sprint_items (cons x xs) = sprint x ∷ sprint_items xs

  pub sprint_fields : Fields → List (String × String)
  sprint_fields end = []
  sprint_fields (field k v fs) = (k, sprint v) ∷ sprint_fields fs

unfoldable mutual
  unfolding sprint sort_by insert_by

  pub sort_and_sprint : Value → String
  sort_and_sprint null = "<nil>"
  sort_and_sprint nil_map = map_text []
  sort_and_sprint (bool b) = bool_text b
  sort_and_sprint (num n) = n
  sort_and_sprint (str s) = s
  sort_and_sprint (arr xs) = list_text (sort_by str_ltb (sorted_items xs))
  sort_and_sprint (obj fs) = map_text (sort_by key_less (sorted_fields fs))

  pub sorted_items : Items → List String
  sorted_items nil = []
  sorted_items (cons x xs) = sort_and_sprint x ∷ sorted_items xs

  pub sorted_fields : Fields → List (String × String)
  sorted_fields end = []
  sorted_fields (field k v fs) = (k, sort_and_sprint v) ∷ sorted_fields fs

sprint_map :
    sprint (obj (field "b" (num "1") (field "a" (arr (cons (str "x") (cons null nil))) end)))
    ≡ "map[a:[x <nil>] b:1]"
unfolding sprint
sprint_map = refl
