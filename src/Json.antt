-- ===== src/Json.antt =====
-- The part of cjson.h that the control protocol calls: objects, and items with an integer and a
-- text. cJSON is a library of its own beside iperf, so it is an interface here, with laws that say
-- what its functions are documented to do.
use sber_wifi.Prelude.{
  ◌^◌, ◌≡◌, Bool, true, false, ◌&&◌, Option, none, some, List, [], ◌∷◌, arith, if◌then◌else◌,
}
use sber_wifi.Prelude.Int.{ℤ, pos, negsuc, ◌≤ℤ◌}
use sber_wifi.Libc.{Text, same_ignoring_case}

pub record Json : Type 1 where
  pub Object : Type 0
  pub Item : Type 0
  pub create_object : Object
  pub add_item : Text → Item → Object → Object
  pub get_item : Text → Object → Option Item
  pub create_true : Item
  pub create_number : ℤ → Item
  pub create_string : Text → Item
  pub valueint : Item → ℤ
  pub valuestring : Item → Option Text

-- `first`, if it is there, and otherwise `second`.
abbrev pub or_else : {A : Type 0} → Option A → Option A → Option A
or_else (some a) second = some a
or_else none second = second

abbrev pub keep_if : {A : Type 0} → Bool → A → Option A
keep_if b a = if b then some a else none

-- Integers that a `double` holds exactly.
abbrev pub IsExact : ℤ → Type 0
IsExact n = (negsuc (2 ^ 53) ≤ℤ n) × (n ≤ℤ pos (2 ^ 53))

-- An object answers a name with the first item that was added under it, whatever the case of the
-- letters; items give back what they were made of.
pub record JsonLaws (J : Json) : Type 0 where
  pub get_create : (name : Text) → J.get_item name J.create_object ≡ none
  pub get_add :
      (name name' : Text) (item : J.Item) (o : J.Object)
      → J.get_item name (J.add_item name' item o)
        ≡ or_else (J.get_item name o) (keep_if (same_ignoring_case name name') item)
  pub number : (n : ℤ) → IsExact n → J.valueint (J.create_number n) ≡ n
  pub string : (text : Text) → J.valuestring (J.create_string text) ≡ some text

module _ (J : Json) where
  -- A list of calls of cJSON_AddItemToObject, each behind its condition.
  abbrev pub Fields : Type 0
  Fields = List (Bool × Text × J.Item)

  unfoldable pub add_fields : Fields → J.Object → J.Object
  add_fields [] o = o
  add_fields ((wanted, name, item) ∷ rest) o =
      add_fields rest (if wanted then J.add_item name item o else o)

  unfoldable pub first_field : Text → Fields → Option J.Item
  unfolding same_ignoring_case
  first_field name [] = none
  first_field name ((wanted, name', item) ∷ rest) =
      or_else (keep_if (same_ignoring_case name name' && wanted) item) (first_field name rest)

  get-add_fields :
      JsonLaws J
      → (name : Text) (fields : Fields) (o : J.Object)
      → J.get_item name (add_fields fields o)
        ≡ or_else (J.get_item name o) (first_field name fields)
  unfolding add_fields first_field
  get-add_fields laws name [] o = ground arith
  get-add_fields laws name ((true, name', item) ∷ rest) o =
      let step = get-add_fields laws name rest (J.add_item name' item o) in
      let added = laws.get_add name name' item o in ground arith
  get-add_fields laws name ((false, name', item) ∷ rest) o =
      let step = get-add_fields laws name rest o in ground arith

  -- What an object made of the fields answers.
  pub get-fields :
      JsonLaws J
      → (name : Text) (fields : Fields)
      → J.get_item name (add_fields fields J.create_object) ≡ first_field name fields
  get-fields laws name fields =
      let created = laws.get_create name in
      let all = get-add_fields laws name fields J.create_object in ground arith
