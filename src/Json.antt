-- ===== src/Json.antt =====
-- The JavaScript values, with texts as code points, that reservation records, their metadata and their patches hold.
-- `none` of an `Option Value` is `undefined`; a number is a non-negative safe integer.
pub mod Laws
use clairveiljs.Prelude.{
  ℕ, ◌+◌, ◌/◌, ◌%◌, String, Bool, true, false, not, ◌&&◌, ◌||◌, Option, none, some, List, [], ◌∷◌,
  ◌++◌, ◌==◌, str_eq, if◌then◌else◌, ◌≡◌, refl, arith,
}
use clairveiljs.Text.{codes, codes_eq, trim, decimal_text, decimal_value, is_decimal}

mutual
  pub data Value : Type 0 where
    null : Value
    bool : Bool → Value
    num : ℕ → Value
    str : List ℕ → Value
    arr : Items → Value
    obj : Fields → Value

  pub data Fields : Type 0 where
    end : Fields
    field : String → Value → Fields → Fields

  pub data Items : Type 0 where
    no_items : Items
    item : Value → Items → Items

unfoldable pub get : Fields → String → Option Value
get end k = none
get (field j v fs) k = if str_eq j k then some v else get fs k

unfoldable pub has : Fields → String → Bool
has end k = false
has (field j v fs) k = if str_eq j k then true else has fs k

-- `{ ...fs, [k]: v }`
unfoldable pub put : String → Value → Fields → Fields
put k v end = field k v end
put k v (field j w fs) = if str_eq j k then field j v fs else field j w (put k v fs)

-- `{ ...base, ...over }`, up to the order of the keys.
unfoldable pub merge : Fields → Fields → Fields
unfolding put
merge base end = base
merge base (field k v over) = put k v (merge base over)

unfoldable pub keys : Fields → List String
keys end = []
keys (field k v fs) = k ∷ keys fs

unfoldable pub delete : String → Fields → Fields
delete k end = end
delete k (field j v fs) = if str_eq j k then fs else field j v (delete k fs)

-- Two values have the same `JSON.stringify`.
unfoldable mutual
  pub same_json : Value → Value → Bool
  same_json null null = true
  same_json (bool true) (bool b) = b
  same_json (bool false) (bool b) = not b
  same_json (num n) (num m) = n == m
  same_json (str s) (str t) = codes_eq s t
  same_json (arr xs) (arr ys) = same_items xs ys
  same_json (obj fs) (obj gs) = same_fields fs gs
  same_json _ _ = false

  pub same_items : Items → Items → Bool
  same_items no_items no_items = true
  same_items (item x xs) (item y ys) = same_json x y && same_items xs ys
  same_items _ _ = false

  pub same_fields : Fields → Fields → Bool
  same_fields end end = true
  same_fields (field k v fs) (field j w gs) = str_eq k j && same_json v w && same_fields fs gs
  same_fields _ _ = false

-- `JSON.stringify(a) === JSON.stringify(b)`, where either may be `undefined`.
unfoldable pub same_json? : Option Value → Option Value → Bool
unfolding same_json
same_json? none none = true
same_json? (some v) (some w) = same_json v w
same_json? _ _ = false

unfoldable pub truthy : Option Value → Bool
truthy none = false
truthy (some null) = false
truthy (some (bool b)) = b
truthy (some (num n)) = not (n == 0)
truthy (some (str [])) = false
truthy (some (str (c ∷ cs))) = true
truthy (some (arr xs)) = true
truthy (some (obj fs)) = true

-- `x || y`
unfoldable pub or_else : Option Value → Option Value → Option Value
unfolding truthy
or_else x y = if truthy x then x else y

-- `value !== undefined && value !== null`
unfoldable pub is_defined : Option Value → Bool
is_defined none = false
is_defined (some null) = false
is_defined (some v) = true

-- `x ?? y`, and `firstDefined(x, y)`
unfoldable pub first_defined : Option Value → Option Value → Option Value
unfolding is_defined
first_defined x y = if is_defined x then x else y

-- `value === true`
unfoldable pub is_true : Option Value → Bool
is_true (some (bool b)) = b
is_true _ = false

-- `value === false`
unfoldable pub is_false : Option Value → Bool
is_false (some (bool b)) = not b
is_false _ = false

unfoldable pub is_boolean : Option Value → Bool
is_boolean (some (bool b)) = true
is_boolean _ = false

-- `value && typeof value === "object" && !Array.isArray(value)`
unfoldable pub is_object : Option Value → Bool
is_object (some (obj fs)) = true
is_object _ = false

unfoldable pub fields_of : Option Value → Fields
fields_of (some (obj fs)) = fs
fields_of _ = end

-- An element of an array prints as `String` of it, or as nothing if it is `null`.
unfoldable pub element_text : Value → List ℕ → List ℕ
element_text null text = []
element_text _ text = text

-- `String(value)`, as code points.
unfoldable mutual
  unfolding element_text

  pub text_of : Value → List ℕ
  text_of null = codes "null"
  text_of (bool true) = codes "true"
  text_of (bool false) = codes "false"
  text_of (num n) = decimal_text n
  text_of (str s) = s
  text_of (arr xs) = text_of_items xs
  text_of (obj fs) = codes "[object Object]"

  pub text_of_items : Items → List ℕ
  text_of_items no_items = []
  text_of_items (item x no_items) = element_text x (text_of x)
  text_of_items (item x (item y ys)) =
      element_text x (text_of x) ++ b',' ∷ text_of_items (item y ys)

-- `String(value ?? "")`
unfoldable pub text_or_empty : Option Value → List ℕ
unfolding is_defined text_of
text_or_empty none = []
text_or_empty (some null) = []
text_or_empty (some v) = text_of v

-- `String(value || "")`
unfoldable pub text_if_truthy : Option Value → List ℕ
unfolding truthy text_of
text_if_truthy none = []
text_if_truthy (some v) = if truthy (some v) then text_of v else []

-- `Number(value)` where that is a non-negative safe integer, and `none` where it is anything else.
-- Of texts it reads the canonical decimal ones.
unfoldable pub number_of : Option Value → Option ℕ
number_of none = none
number_of (some null) = some 0
number_of (some (bool b)) = some (if b then 1 else 0)
number_of (some (num n)) = some n
number_of (some (str s)) = if is_decimal (trim s) then some (decimal_value (trim s)) else none
number_of (some (arr xs)) = none
number_of (some (obj fs)) = none
