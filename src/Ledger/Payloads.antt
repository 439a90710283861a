-- ===== src/Ledger/Payloads.antt =====
-- Reading the payloads back, and what an append changes of the store.
use memory_blackbox.Prelude.{◌≡◌, false, List, [], ◌∷◌, ◌++◌, some, arith, Text, ok}
use memory_blackbox.Crypto.{Primitives}
use memory_blackbox.Model.Json.{Json, Orjson}
use memory_blackbox.Model.Records.{LedgerRecord, id_of}
use memory_blackbox.Storage.{Row}
use memory_blackbox.Ledger.Store.{
  LedgerStore, append, row_for, insert_row, maybe_checkpoint, checkpoint, parse_rows, is_taken, get,
}

module _ (json : Orjson) where
  pub parse_rows-cons :
      (row : Row) (rows : List Row) (ps : List (Row × Json))
      → parse_rows json (row ∷ rows) ≡ ok ps
      → (value : Json) × (rest : List (Row × Json)) × (json.loads row.payload_json ≡ some value)
        × (parse_rows json rows ≡ ok rest)
        × (ps ≡ (row, value) ∷ rest)
  parse_rows-cons row rows ps h = ground arith

  pub parse_rows-concat :
      (rows : List Row) (ps : List (Row × Json)) (row : Row) (v : Json)
      → parse_rows json rows ≡ ok ps
      → json.loads row.payload_json ≡ some v
      → parse_rows json (rows ++ row ∷ []) ≡ ok (ps ++ (row, v) ∷ [])
  parse_rows-concat [] ps row v h l = ground arith
  parse_rows-concat (r ∷ rows) ps row v h l =
      let (value, rest, loaded, later, same) = parse_rows-cons r rows ps h in
      rw same (ground (arith, parse_rows-concat rows rest row v later l))

maybe_checkpoint-ledger :
    (c : Primitives) (s : LedgerStore) (now : Text)
    → ((maybe_checkpoint c s now).ledger ≡ s.ledger) × ((maybe_checkpoint c s now).edges ≡ s.edges)
unfolding maybe_checkpoint checkpoint
maybe_checkpoint-ledger c s now = ground arith

-- An append adds its row and leaves the edges alone.
pub append-rest :
    (c : Primitives) (json : Orjson) (s t : LedgerStore) (r r' : LedgerRecord) (now later : Text)
    → append c json s r now later ≡ ok (t, r')
    → (t.ledger ≡ s.ledger ++ row_for c json s r now ∷ [])
      × (t.edges ≡ s.edges)
      × (is_taken (get s (id_of r)) ≡ false)
unfolding append insert_row
append-rest c json s t r r' now later h =
    let kept = maybe_checkpoint-ledger c (insert_row s (row_for c json s r now)) later in
    ground (arith, kept.0, kept.1)
