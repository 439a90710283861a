-- ===== src/Model/Canonical.antt =====
-- src/memory_blackbox/model/canonical.py
use memory_blackbox.Prelude.{
  ◌≡◌, refl, ap, ap₂, true, false, List, [], ◌∷◌, Option, none, some, arith, Text, Bytes, codes,
  eq_iff, if◌then◌else◌, Bool-cases, inl, inr, contains,
}
use memory_blackbox.Codec.Utf8.{utf8}
use memory_blackbox.Model.Json.{
  Json, Items, Fields, Orjson, null, bool, int, float, str, arr, obj, nil, cons, end, field,
  get_field,
}

abbrev pub ledger_set_fields : List Text
ledger_set_fields =
    codes "entry_hash"
    ∷ codes "prev_hash"
    ∷ codes "signature"
    ∷ codes "signer_kid"
    ∷ codes "merkle_leaf"
    ∷ []

unfoldable mutual
  -- `_prune`
  pub prune : List Text → Json → Json
  prune exclude null = null
  prune exclude (bool b) = bool b
  prune exclude (int n) = int n
  prune exclude (float x) = float x
  prune exclude (str s) = str s
  prune exclude (arr xs) = arr (prune_items exclude xs)
  prune exclude (obj fs) = obj (prune_fields exclude fs)

  pub prune_items : List Text → Items → Items
  prune_items exclude nil = nil
  prune_items exclude (cons x xs) = cons (prune exclude x) (prune_items exclude xs)

  pub prune_fields : List Text → Fields → Fields
  prune_fields exclude end = end
  prune_fields exclude (field k v fs) =
      if contains exclude k
      then prune_fields exclude fs
      else field k (prune exclude v) (prune_fields exclude fs)

-- The text whose UTF-8 bytes `canonical_bytes` returns.
unfoldable pub canonical_text : Orjson → List Text → Json → Text
canonical_text json exclude value = json.dumps (prune exclude value)

unfoldable pub canonical_bytes : Orjson → List Text → Json → Bytes
canonical_bytes json exclude value = utf8 (canonical_text json exclude value)

prune_option : List Text → Option Json → Option Json
prune_option exclude none = none
prune_option exclude (some v) = some (prune exclude v)

get_pruned :
    (exclude : List Text) (key : Text) (fs : Fields)
    → get_field key (prune_fields exclude fs)
      ≡ (if contains exclude key then none else prune_option exclude (get_field key fs))
unfolding get_field prune_fields prune_option
get_pruned exclude key end = elim (Bool-cases (contains exclude key)) [
  | inl h ↦ rw h
  | inr h ↦ rw h
]
get_pruned exclude key (field k v fs) =
    ground (arith, get_pruned exclude key fs, eq_iff k key, ap (contains exclude))

-- An excluded key is gone from a pruned object.
pub get_field-prune_gone :
    (exclude : List Text) (key : Text) (fs : Fields)
    → contains exclude key ≡ true
    → get_field key (prune_fields exclude fs) ≡ none
get_field-prune_gone exclude key fs h = ground (arith, get_pruned exclude key fs)

-- Every other key keeps its value, itself pruned.
pub get_field-prune_kept :
    (exclude : List Text) (key : Text) (fs : Fields) (value : Json)
    → contains exclude key ≡ false
    → get_field key fs ≡ some value
    → get_field key (prune_fields exclude fs) ≡ some (prune exclude value)
unfolding prune_option
get_field-prune_kept exclude key fs value h e = ground (arith, get_pruned exclude key fs)

mutual
  unfolding prune

  idem : (exclude : List Text) (v : Json) → prune exclude (prune exclude v) ≡ prune exclude v
  idem exclude null = refl
  idem exclude (bool b) = refl
  idem exclude (int n) = refl
  idem exclude (float x) = refl
  idem exclude (str s) = refl
  idem exclude (arr xs) = ap arr (idem_items exclude xs)
  idem exclude (obj fs) = ap obj (idem_fields exclude fs)

  idem_items :
      (exclude : List Text) (xs : Items)
      → prune_items exclude (prune_items exclude xs) ≡ prune_items exclude xs
  idem_items exclude nil = refl
  idem_items exclude (cons x xs) = ap₂ cons (idem exclude x) (idem_items exclude xs)

  idem_fields :
      (exclude : List Text) (fs : Fields)
      → prune_fields exclude (prune_fields exclude fs) ≡ prune_fields exclude fs
  idem_fields exclude end = refl
  idem_fields exclude (field k v fs) = ground (arith, idem exclude v, idem_fields exclude fs)
