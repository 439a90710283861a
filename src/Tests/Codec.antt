-- ===== src/Tests/Codec.antt =====
-- A concrete `Orjson` for the witnesses: a value is written as instructions for a stack, and read
-- back by running them. It shows that the behaviour asked of the package can be met.
use memory_blackbox.Prelude.{
  ℕ, ◌≡◌, refl, ap, ◌∙◌, true, false, List, [], ◌∷◌, Option, none, some, Text, if◌then◌else◌,
  nat_eq,
}
use memory_blackbox.Model.Json.{
  Json, Items, Fields, null, bool, int, float, str, arr, obj, nil, cons, end, field, Orjson,
  IsRoundTrip, sort_keys, sort_fields,
}
use memory_blackbox.Codec.Hex.{is_space}
use memory_blackbox.Anchor.FileWitness.{is_blank}

-- What the stack holds; a text is pushed code by code.
pub data Slot : Type 0 where
  value : Json → Slot
  items : Items → Slot
  fields : Fields → Slot
  chars : Text → Slot

-- The instructions that take their operands from the stack.
pub data Op : Type 0 where
  make_str make_int make_float make_arr make_obj add_item add_field : Op

step : Op → List Slot → Option (List Slot)
step make_str (chars s ∷ st) = some (value (str s) ∷ st)
step make_int (chars (n ∷ []) ∷ st) = some (value (int n) ∷ st)
step make_float (chars (n ∷ []) ∷ st) = some (value (float n) ∷ st)
step make_arr (items xs ∷ st) = some (value (arr xs) ∷ st)
step make_obj (fields fs ∷ st) = some (value (obj fs) ∷ st)
step add_item (value v ∷ items xs ∷ st) = some (items (cons v xs) ∷ st)
step add_field (chars k ∷ value v ∷ fields fs ∷ st) = some (fields (field k v fs) ∷ st)
step _ st = none

push_char : ℕ → List Slot → Option (List Slot)
push_char n (chars s ∷ st) = some (chars (n ∷ s) ∷ st)
push_char n st = none

-- An instruction is a code and an argument.
exec : ℕ → ℕ → List Slot → Option (List Slot)
unfolding step push_char
exec k n st =
    if nat_eq k 0
    then some (value null ∷ st)
    else if nat_eq k 1
    then some (value (bool true) ∷ st)
    else if nat_eq k 2
    then some (value (bool false) ∷ st)
    else if nat_eq k 3
    then some (items nil ∷ st)
    else if nat_eq k 4
    then some (fields end ∷ st)
    else if nat_eq k 5
    then some (chars [] ∷ st)
    else if nat_eq k 6
    then push_char n st
    else if nat_eq k 7
    then step make_str st
    else if nat_eq k 8
    then step make_int st
    else if nat_eq k 9
    then step make_float st
    else if nat_eq k 10
    then step make_arr st
    else if nat_eq k 11
    then step make_obj st
    else if nat_eq k 12
    then step add_item st
    else step add_field st

run : Text → Option (List Slot) → Option (List Slot)
run ops none = none
run [] (some st) = some st
run (k ∷ []) (some st) = none
run (k ∷ n ∷ ops) (some st) = run ops (exec k n st)

abbrev op : ℕ → Text → Text
op k rest = k ∷ 0 ∷ rest

push_text : Text → Text → Text
push_text [] rest = op 5 rest
push_text (c ∷ s) rest = push_text s (6 ∷ c ∷ rest)

mutual
  write : Json → Text → Text
  write null rest = op 0 rest
  write (bool true) rest = op 1 rest
  write (bool false) rest = op 2 rest
  write (int n) rest = op 5 (6 ∷ n ∷ op 8 rest)
  write (float n) rest = op 5 (6 ∷ n ∷ op 9 rest)
  write (str s) rest = push_text s (op 7 rest)
  write (arr xs) rest = write_items xs (op 10 rest)
  write (obj fs) rest = write_fields fs (op 11 rest)

  write_items : Items → Text → Text
  write_items nil rest = op 3 rest
  write_items (cons x xs) rest = write_items xs (write x (op 12 rest))

  write_fields : Fields → Text → Text
  write_fields end rest = op 4 rest
  write_fields (field k v fs) rest = write_fields fs (write v (push_text k (op 13 rest)))

run-push_text :
    (s rest : Text) (st : List Slot)
    → run (push_text s rest) (some st) ≡ run rest (some (chars s ∷ st))
unfolding push_text run exec
run-push_text [] rest st = refl
run-push_text (c ∷ s) rest st = run-push_text s (6 ∷ c ∷ rest) st

mutual
  unfolding write run exec

  run-write :
      (v : Json) (rest : Text) (st : List Slot)
      → run (write v rest) (some st) ≡ run rest (some (value v ∷ st))
  run-write null rest st = refl
  run-write (bool true) rest st = refl
  run-write (bool false) rest st = refl
  run-write (int n) rest st = refl
  run-write (float n) rest st = refl
  run-write (str s) rest st = run-push_text s (op 7 rest) st
  run-write (arr xs) rest st = run-write_items xs (op 10 rest) st
  run-write (obj fs) rest st = run-write_fields fs (op 11 rest) st

  run-write_items :
      (xs : Items) (rest : Text) (st : List Slot)
      → run (write_items xs rest) (some st) ≡ run rest (some (items xs ∷ st))
  run-write_items nil rest st = refl
  run-write_items (cons x xs) rest st =
      run-write_items xs (write x (op 12 rest)) st ∙ run-write x (op 12 rest) (items xs ∷ st)

  run-write_fields :
      (fs : Fields) (rest : Text) (st : List Slot)
      → run (write_fields fs rest) (some st) ≡ run rest (some (fields fs ∷ st))
  run-write_fields end rest st = refl
  run-write_fields (field k v fs) rest st =
      run-write_fields fs (write v (push_text k (op 13 rest))) st
      ∙ run-write v (push_text k (op 13 rest)) (fields fs ∷ st)
      ∙ run-push_text k (op 13 rest) (value v ∷ fields fs ∷ st)

top_value : Option (List Slot) → Option Json
top_value (some (value v ∷ [])) = some v
top_value _ = none

unfoldable pub encode : Json → Text
unfolding write push_text
encode v = write (sort_keys v) []

unfoldable pub decode : Text → Option Json
unfolding run exec top_value
decode t = top_value (run t (some []))

-- A value as it stands, its keys unsorted.
unfoldable pub plain : Json → Text
unfolding write push_text
plain v = write v []

pub decode-plain : (v : Json) → decode (plain v) ≡ some v
unfolding decode plain
decode-plain v = ap top_value (run-write v [] [])

abbrev pub toy_json : Orjson
toy_json = record { dumps = encode; loads = decode }

pub toy_json-IsRoundTrip : IsRoundTrip toy_json
unfolding encode decode
toy_json-IsRoundTrip = record { loads-dumps = λ v. ap top_value (run-write (sort_keys v) [] []) }

write_fields-visible : (fs : Fields) (rest : Text) → is_blank (write_fields fs rest) ≡ false
unfolding write_fields is_blank is_space
write_fields-visible end rest = refl
write_fields-visible (field k v fs) rest =
    write_fields-visible fs (write v (push_text k (op 13 rest)))

pub encode-visible : (fs : Fields) → is_blank (encode (obj fs)) ≡ false
unfolding encode sort_keys write
encode-visible fs = write_fields-visible (sort_fields fs) (op 11 [])
