-- ===== src/Model/Values.antt =====
-- Python's view of parsed values: truth, `or`, `str` and `int`, the values of a loop, and the lookup
-- of a key.
use memory_blackbox.Prelude.{
  ℕ, ◌%◌, ◌^◌, Bool, true, false, not, [], Option, none, some, Text, ◌==◌, nat_eq, ◌≡◌, ◌∷◌, List,
  Result, ok, err, attribute_error, refl, if◌then◌else◌,
}
use memory_blackbox.Model.Json.{
  Json, Items, Fields, get, get_field, null, bool, int, float, str, arr, obj, nil, cons, end, field,
}

-- `str` and `int` of Python on a parsed value; `none` for a TypeError or a ValueError.
pub record Casts : Type 0 where
  pub to_str : Json → Text
  pub to_int : Json → Option ℕ

-- Their behaviour on the values that the program writes.
pub record AreCasts (casts : Casts) : Type 0 where
  pub str_str : (s : Text) → casts.to_str (str s) ≡ s
  pub int_int : (n : ℕ) → casts.to_int (int n) ≡ some n

-- Whether `or` passes over a looked-up value; a float is zero by either sign.
abbrev pub is_falsy : Option Json → Bool
is_falsy none = true
is_falsy (some null) = true
is_falsy (some (bool b)) = not b
is_falsy (some (int n)) = nat_eq n 0
is_falsy (some (float bits)) = nat_eq (bits % 2 ^ 63) 0
is_falsy (some (str t)) = t == []
is_falsy (some (arr nil)) = true
is_falsy (some (arr (cons x xs))) = false
is_falsy (some (obj end)) = true
is_falsy (some (obj (field k v fs))) = false

-- `a or b` of two looked-up values.
abbrev pub or_value : Option Json → Option Json → Option Json
or_value a b = if is_falsy a then b else a

-- The values of a `for` loop over a parsed value; `none` for a TypeError.
abbrev pub item_list : Items → List Json
item_list nil = []
item_list (cons v vs) = v ∷ item_list vs

abbrev pub key_list : Fields → List Json
key_list end = []
key_list (field k v fs) = str k ∷ key_list fs

abbrev pub character_list : Text → List Json
character_list [] = []
character_list (x ∷ s) = str (x ∷ []) ∷ character_list s

abbrev pub iterated : Option Json → Option (List Json)
iterated none = some []
iterated (some (arr vs)) = some (item_list vs)
iterated (some (obj fs)) = some (key_list fs)
iterated (some (str s)) = some (character_list s)
iterated _ = none

-- `value.get(key)`, which only an object has.
abbrev pub get_member : Text → Json → Result (Option Json)
get_member key (obj fs) = ok (get_field key fs)
get_member key _ = err attribute_error

pub get_member-get :
    (key : Text) (value found : Json)
    → get key value ≡ some found
    → get_member key value ≡ ok (some found)
unfolding get
get_member-get key (obj fs) found h = rw h refl
get_member-get key null found h = cc
get_member-get key (bool b) found h = cc
get_member-get key (int n) found h = cc
get_member-get key (float bits) found h = cc
get_member-get key (str s) found h = cc
get_member-get key (arr vs) found h = cc
