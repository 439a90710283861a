-- ===== src/Model/Json.antt =====
-- JSON values as Python holds them after `model_dump(mode="json")` or `orjson.loads`. An object
-- is its list of fields; a float is given by its bit pattern.
use memory_blackbox.Prelude.{
  ℕ, Bool, true, List, [], ◌∷◌, Option, none, some, Text, if◌then◌else◌, ◌==◌, ◌≡◌, refl, ap, ◌∙◌,
  eq_iff, text_leb, arith,
}

mutual
  pub data Json : Type 0 where
    null : Json
    bool : Bool → Json
    int : ℕ → Json
    float : ℕ → Json
    str : Text → Json
    arr : Items → Json
    obj : Fields → Json

  pub data Items : Type 0 where
    nil : Items
    cons : Json → Items → Items

  pub data Fields : Type 0 where
    end : Fields
    field : Text → Json → Fields → Fields

-- `d.get(key)`
unfoldable pub get_field : Text → Fields → Option Json
get_field key end = none
get_field key (field k v fs) = if k == key then some v else get_field key fs

-- `payload.get(key)` of a parsed value that should be an object
unfoldable pub get : Text → Json → Option Json
get key (obj fs) = get_field key fs
get key _ = none

abbrev pub texts : List Text → Items
texts [] = nil
texts (t ∷ ts) = cons (str t) (texts ts)

abbrev pub floats : List ℕ → Items
floats [] = nil
floats (x ∷ xs) = cons (float x) (floats xs)

abbrev pub opt_text : Option Text → Json
opt_text none = null
opt_text (some t) = str t

-- A field put before the first field with a key that is not smaller.
unfoldable pub insert_field : Text → Json → Fields → Fields
insert_field k v end = field k v end
insert_field k v (field j w fs) =
    let rest = insert_field k v fs in
    if text_leb k j then field k v (field j w fs) else field j w rest

-- A value with the keys of every object sorted: `OPT_SORT_KEYS`.
unfoldable mutual
  pub sort_keys : Json → Json
  sort_keys null = null
  sort_keys (bool b) = bool b
  sort_keys (int n) = int n
  sort_keys (float x) = float x
  sort_keys (str s) = str s
  sort_keys (arr xs) = arr (sort_items xs)
  sort_keys (obj fs) = obj (sort_fields fs)

  pub sort_items : Items → Items
  sort_items nil = nil
  sort_items (cons x xs) = cons (sort_keys x) (sort_items xs)

  pub sort_fields : Fields → Fields
  sort_fields end = end
  sort_fields (field k v fs) = insert_field k (sort_keys v) (sort_fields fs)

-- The package `orjson`: `dumps` with sorted keys, as the text that its UTF-8 bytes decode to, and
-- `loads`, `none` for its `JSONDecodeError`.
pub record Orjson : Type 0 where
  pub dumps : Json → Text
  pub loads : Text → Option Json

-- Its documented behaviour: `loads` gives back what `dumps` wrote.
pub record IsRoundTrip (json : Orjson) : Type 0 where
  pub loads-dumps : (v : Json) → json.loads (json.dumps v) ≡ some (sort_keys v)

text_leb_refl : (s : Text) → text_leb s s ≡ true
unfolding text_leb
text_leb_refl [] = refl
text_leb_refl (x ∷ s) = ground (arith, text_leb_refl s)

get_field-insert :
    (key k : Text) (v : Json) (fs : Fields)
    → get_field key (insert_field k v fs) ≡ (if k == key then some v else get_field key fs)
unfolding get_field insert_field
get_field-insert key k v end = refl
get_field-insert key k v (field j w fs) = ground (
  arith,
  get_field-insert key k v fs,
  eq_iff k key,
  eq_iff j key,
  text_leb_refl k,
  ap (text_leb k),
)

abbrev pub sort_option : Option Json → Option Json
sort_option none = none
sort_option (some v) = some (sort_keys v)

-- Sorting the keys of an object changes no lookup, but that the value found is sorted too.
pub get_field-sort :
    (key : Text) (fs : Fields) → get_field key (sort_fields fs) ≡ sort_option (get_field key fs)
unfolding get_field sort_fields
get_field-sort key end = refl
get_field-sort key (field k v fs) =
    get_field-insert key k (sort_keys v) (sort_fields fs) ∙ ground (arith, get_field-sort key fs)

pub sort_items-texts : (ts : List Text) → sort_items (texts ts) ≡ texts ts
unfolding sort_items
sort_items-texts [] = refl
sort_items-texts (t ∷ ts) = ap (cons (str t)) (sort_items-texts ts)
