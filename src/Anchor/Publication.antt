-- ===== src/Anchor/Publication.antt =====
-- Publishing to the file witness: what was there stays, and the new line is a witness of its
-- statement for everybody who holds the public key.
use memory_blackbox.Prelude.{
  ◌≡◌, refl, ap, ◌∙◌, true, false, List, [], ◌∷◌, ◌++◌, Option, none, some, arith, Text, Bytes,
  codes, eq_of_eq, Bool-cases, inl, inr, Result, ok, err, ◌>>=◌, >>=-eq-ok,
}
use memory_blackbox.Crypto.{Primitives}
use memory_blackbox.Model.Json.{Json, Fields, Orjson, obj, get_field}
use memory_blackbox.Model.Values.{Casts}
use memory_blackbox.Anchor.Statement.{CheckpointStatement, from_canonical}
use memory_blackbox.Anchor.FileWitness.{
  Line, is_blank, keep_dict, parse_line, add_line, statement_line, read_lines, parse_lines,
  statement_fields, valid_lines_unchecked, is_signed, keep_signed, witness_of, witnesses_for,
}

-- The text of an object is not blank.
pub record WritesObjects (json : Orjson) : Type 0 where
  pub visible : (fs : Fields) → is_blank (json.dumps (obj fs)) ≡ false

-- A list that was read, with one item more.
abbrev extended {ℓ} : {A : Type ℓ} → A → Result (List A) → Result (List A)
extended x (ok xs) = ok (xs ++ x ∷ [])
extended x (err why) = err why

module _ (c : Primitives) (json : Orjson) (casts : Casts) where
  keep_dict-extended :
      (v : Json) (fs : Fields) (lines : List Fields)
      → keep_dict c json casts v (lines ++ fs ∷ []) ≡ keep_dict c json casts v lines ++ fs ∷ []
  keep_dict-extended (obj gs) fs lines = refl
  keep_dict-extended _ fs lines = refl

  parse_line-extended :
      (o : Option Json) (fs : Fields) (r : Result (List Fields))
      → parse_line c json casts o (extended fs r) ≡ extended fs (parse_line c json casts o r)
  parse_line-extended none fs r = refl
  parse_line-extended (some v) fs (ok lines) =
      ap {B = Result (List Fields)} ok (keep_dict-extended v fs lines)
  parse_line-extended (some v) fs (err why) = refl

  read_lines-append :
      (file : List Text) (raw : Text) (fs : Fields)
      → is_blank raw ≡ false
      → json.loads raw ≡ some (obj fs)
      → read_lines c json casts (file ++ raw ∷ []) ≡ extended fs (read_lines c json casts file)
  unfolding read_lines
  read_lines-append [] raw fs seen loaded = rw seen (rw loaded refl)
  read_lines-append (r ∷ file) raw fs seen loaded =
      let rest = read_lines-append file raw fs seen loaded in
      elim (Bool-cases (is_blank r)) [
        | inl blank ↦ rw blank rest
        | inr visible ↦ rw visible (
            ap (parse_line c json casts (json.loads r)) rest
            ∙ parse_line-extended (json.loads r) fs (read_lines c json casts file))
      ]

  add_line-extended :
      (l : Fields) (r : Result CheckpointStatement) (x : Line) (out : Result (List Line))
      → add_line c json casts l r (extended x out) ≡ extended x (add_line c json casts l r out)
  add_line-extended l (ok st) x (ok ls) = refl
  add_line-extended l (ok st) x (err why) = refl
  add_line-extended l (err why) x (ok ls) = refl
  add_line-extended l (err why) x (err other) = refl

  statement_line-extended :
      (l : Fields) (o : Option Fields) (x : Line) (out : Result (List Line))
      → statement_line c json casts l o (extended x out)
        ≡ extended x (statement_line c json casts l o out)
  statement_line-extended l none x out = refl
  statement_line-extended l (some fs) x out = add_line-extended l _ x out

  parse_lines-append :
      (lines : List Fields) (fs sub : Fields) (st : CheckpointStatement)
      → statement_fields (get_field (codes "statement") fs) ≡ some sub
      → from_canonical json casts (json.dumps (obj sub)) ≡ ok st
      → parse_lines c json casts (lines ++ fs ∷ [])
        ≡ extended (fs, st) (parse_lines c json casts lines)
  parse_lines-append [] fs sub st found parsed = rw found (rw parsed refl)
  parse_lines-append (l ∷ lines) fs sub st found parsed =
      ap (statement_line c json casts l (statement_fields (get_field (codes "statement") l)))
        (parse_lines-append lines fs sub st found parsed)
      ∙ statement_line-extended l _ (fs, st) (parse_lines c json casts lines)

  -- The lines with one line more, that holds a statement.
  pub unchecked-append :
      (file : List Text) (old : List Line) (raw : Text) (fs sub : Fields) (st : CheckpointStatement)
      → is_blank raw ≡ false
      → json.loads raw ≡ some (obj fs)
      → statement_fields (get_field (codes "statement") fs) ≡ some sub
      → from_canonical json casts (json.dumps (obj sub)) ≡ ok st
      → valid_lines_unchecked c json casts file ≡ ok old
      → valid_lines_unchecked c json casts (file ++ raw ∷ []) ≡ ok (old ++ (fs, st) ∷ [])
  unfolding valid_lines_unchecked
  unchecked-append file old raw fs sub st seen loaded found parsed h =
      let (lines, read, out) =
        >>=-eq-ok (read_lines c json casts file) (parse_lines c json casts) h in
      let read' : read_lines c json casts (file ++ raw ∷ []) ≡ ok (lines ++ fs ∷ []) =
        read_lines-append file raw fs seen loaded ∙ ap (extended fs) read in
      ap (λ m. m >>= parse_lines c json casts) read'
      ∙ parse_lines-append lines fs sub st found parsed
      ∙ ap (extended (fs, st)) out

  pub keep_signed-append :
      (key : Bytes) (ls : List Line) (l : Line)
      → is_signed c json casts key l ≡ true
      → keep_signed c json casts key (ls ++ l ∷ []) ≡ keep_signed c json casts key ls ++ l ∷ []
  unfolding keep_signed
  keep_signed-append key [] l h = rw h refl
  keep_signed-append key (k ∷ ls) l h = ground (arith, keep_signed-append key ls l h)

  pub witnesses_for-append :
      (path identity : Text) (ls : List Line) (l : Line)
      → l.1.ledger_id ≡ identity
      → witnesses_for c json casts path identity (ls ++ l ∷ [])
        ≡ witnesses_for c json casts path identity ls ++ witness_of c json casts path l ∷ []
  unfolding witnesses_for
  witnesses_for-append path identity [] (fs, st) h = rw (eq_of_eq st.ledger_id identity h) refl
  witnesses_for-append path identity ((gs, su) ∷ ls) (fs, st) h =
      ground (arith, witnesses_for-append path identity ls (fs, st) h)
