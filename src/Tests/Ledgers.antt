-- ===== src/Tests/Ledgers.antt =====
-- A ledger with two writes, a retrieval and a rollback, under the concrete primitives.
use memory_blackbox.Prelude.{◌≡◌, ◌≢◌, refl, List, [], ◌∷◌, none, arith, Text, codes, ok, ◌==◌}
use memory_blackbox.Crypto.Toy.{toy, toy-IsSound}
use memory_blackbox.Crypto.Keys.{KeyPair, from_private_bytes}
use memory_blackbox.Model.Json.{end}
use memory_blackbox.Model.Records.{
  Source, LedgerRecord, write_record, unset, web_fetch, untrusted, semantic, active, id_of,
}
use memory_blackbox.Storage.{empty_db}
use memory_blackbox.Ledger.Store.{
  LedgerStore, append, open_store, is_synchronous_mode, upper, maybe_checkpoint, insert_row,
  row_for, stamp, get, checkpoint, checkpoint_due,
}
use memory_blackbox.Ledger.Honest.{IsConsistent}
use memory_blackbox.Ledger.History.{
  Fresh, opened, Reach, here, next, appended, Reach-IsConsistent, Fresh-IsConsistent,
}
use memory_blackbox.Tests.Codec.{toy_json}

abbrev pub web : Source
web = record {
  source_id = codes "web";
  source_type = web_fetch;
  locator = none;
  trust_level = untrusted;
  trust_score = 0;
  first_seen = codes "t0";
  metadata = end;
}

abbrev pub note : Text → List Text → LedgerRecord
note id parents = write_record (record {
  ledger_set = unset;
  record_id = id;
  namespace = codes "default";
  memory_id = none;
  content = codes "a";
  content_hash = codes "h";
  memory_type = semantic;
  source = web;
  derived_from = parents;
  caused_by_retrieval = [];
  state = active;
  created_at = codes "t1";
})

abbrev pub key : KeyPair
key = from_private_bytes toy (7 ∷ [])

abbrev pub new_store : LedgerStore
new_store = record { db = empty_db; signer = key; checkpoint_every = 1; leaves = [] }

new_store_opens : open_store empty_db key 1 (codes "full") ≡ ok new_store
unfolding open_store is_synchronous_mode upper ◌==◌
new_store_opens = refl

abbrev pub extended : LedgerStore → LedgerRecord → LedgerStore
extended s r =
    maybe_checkpoint toy (insert_row s (row_for toy toy_json s r (codes "t2"))) (codes "t3")

abbrev pub stamped : LedgerStore → LedgerRecord → LedgerRecord
stamped s r = stamp (row_for toy toy_json s r (codes "t2")) r

abbrev pub one_row : LedgerStore
one_row = extended new_store (note (codes "w1") [])

abbrev pub two_rows : LedgerStore
two_rows = extended one_row (note (codes "w2") (codes "w1" ∷ []))

pub first_append :
    append toy toy_json new_store (note (codes "w1") []) (codes "t2") (codes "t3")
    ≡ ok (one_row, stamped new_store (note (codes "w1") []))
unfolding append get
first_append = refl

pub second_append :
    append toy toy_json one_row (note (codes "w2") (codes "w1" ∷ [])) (codes "t2") (codes "t3")
    ≡ ok (two_rows, stamped one_row (note (codes "w2") (codes "w1" ∷ [])))
unfolding append get maybe_checkpoint checkpoint_due checkpoint insert_row row_for id_of ◌==◌
second_append = refl

pub new_store-Fresh : Fresh toy toy_json new_store
new_store-Fresh = opened (7 ∷ []) 1 (codes "full") new_store new_store_opens

pub two_rows-Reach : Reach toy toy_json new_store two_rows
two_rows-Reach =
    next
      (next here (
        appended new_store one_row (note (codes "w1") []) _ (codes "t2") (codes "t3") first_append))
      (appended one_row two_rows (note (codes "w2") (codes "w1" ∷ [])) _ (codes "t2") (codes "t3")
        second_append)

pub two_rows-IsConsistent : IsConsistent toy two_rows
two_rows-IsConsistent =
    Reach-IsConsistent toy toy_json toy-IsSound two_rows-Reach
      (Fresh-IsConsistent toy toy_json toy-IsSound new_store-Fresh)

pub one_row-IsConsistent : IsConsistent toy one_row
one_row-IsConsistent =
    Reach-IsConsistent toy toy_json toy-IsSound
      (next here (
        appended new_store one_row (note (codes "w1") []) _ (codes "t2") (codes "t3") first_append))
      (Fresh-IsConsistent toy toy_json toy-IsSound new_store-Fresh)

pub two_rows_checkpoints : two_rows.checkpoints ≢ []
unfolding maybe_checkpoint checkpoint_due checkpoint insert_row
two_rows_checkpoints e = ground arith
