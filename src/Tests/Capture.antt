-- ===== src/Tests/Capture.antt =====
-- Runs of the engine and its proxies over the one-row ledger.
use memory_blackbox.Prelude.{
  ℕ, ◌+◌, ◌≤◌, ◌≡◌, length, false, ◌⊎◌, refl, List, [], ◌∷◌, none, some, arith, Text, codes, Result,
  Error, ok, err, ◌==◌,
}
use memory_blackbox.Codec.Utf8.{utf8}
use memory_blackbox.Crypto.Toy.{toy, toy-IsSound}
use memory_blackbox.Model.Json.{Json, Fields, null, end}
use memory_blackbox.Model.Records.{LedgerRecord, semantic, write_record, id_of}
use memory_blackbox.Ledger.Store.{
  is_taken, LedgerStore, get as get_row, maybe_checkpoint, checkpoint_due, checkpoint, insert_row,
  row_for,
}
use memory_blackbox.Capture.Engine.{
  MemoryBlackbox, WriteRequest, RetrievalRequest, Times, Inspect, run_detectors, record_write,
}
use memory_blackbox.Capture.Effect.{Recorded, Extended, Outcome}
use memory_blackbox.Capture.Writes.{
  hashed, write_links, inspected, record_write-Recorded, record_write-Outcome,
}
use memory_blackbox.Capture.Intact.{IsIntact}
use memory_blackbox.Capture.History.{here, next, wrote, Reach-IsIntact}
use memory_blackbox.Capture.Proxies.{WriteMap, Mapping, Proxy, find_map}
use memory_blackbox.Capture.Gateway.{call_tool, call_tool-forward}
use memory_blackbox.Capture.Sidecar.{handle_upsert, Refused, Tagged, handle_upsert-Tagged}
use memory_blackbox.Tests.Codec.{toy_json}
use memory_blackbox.Tests.Ledgers.{web, one_row, new_store, new_store-Fresh}

-- A detector that counts what it inspects.
abbrev counting : Inspect ℕ
counting n r content ctx = (n + 1, ok [])

abbrev engine : LedgerStore → MemoryBlackbox ℕ
engine s = record { ledger = s; detectors = 0 ∷ []; max_content_bytes = 4; findings = [] }

abbrev child : WriteRequest
child = record {
  content = codes "b";
  source = web;
  namespace = codes "default";
  memory_id = none;
  memory_type = semantic;
  parents = codes "w1" ∷ codes "gone" ∷ [];
  caused_by_retrieval = [];
}

abbrev at : Times
at = record {
  created = codes "t4";
  inspected = 4;
  appended = codes "t5";
  checkpointed = codes "t6";
  linked = codes "t7";
}

abbrev w2 : Text
w2 = codes "w2"

child_fits : length (utf8 child.content) ≤ 4
unfolding utf8
child_fits = omega arith

child_passes : inspected toy toy_json counting (engine one_row) child w2 at ≡ (1 ∷ [], [], ok tt)
unfolding run_detectors
child_passes = refl

w2_fresh : is_taken (get_row one_row w2) ≡ false
unfolding get_row maybe_checkpoint checkpoint_due checkpoint insert_row row_for id_of ◌==◌
w2_fresh = refl

record_write-Recorded_example :
    (t : LedgerStore) × (r' : LedgerRecord) × (record_write toy toy_json counting
        (engine one_row)
        child
        w2
        at
      ≡ (record (engine one_row) { ledger = t; detectors = 1 ∷ []; findings = [] }, ok r'))
    × Recorded w2 (write_links toy toy_json counting child) one_row t
    × Extended
        (row_for toy toy_json one_row
          (write_record (hashed toy toy_json counting child w2 (codes "t4")))
          (codes "t5"))
        one_row
        t
record_write-Recorded_example =
    record_write-Recorded toy toy_json counting (engine one_row) child w2 at (1 ∷ []) [] child_fits
      child_passes w2_fresh

record_write-Outcome_example :
    Outcome toy toy_json
      (write_record (hashed toy toy_json counting child w2 (codes "t4")))
      (write_links toy toy_json counting child)
      one_row
      (record_write toy toy_json counting (engine one_row) child w2 at)
record_write-Outcome_example =
    record_write-Outcome toy toy_json counting (engine one_row) child w2 at

abbrev found : RetrievalRequest
found = record {
  query = codes "q";
  returned = codes "w1" ∷ [];
  scores = 1 ∷ [];
  namespace = codes "default";
  session_id = none;
  turn_id = none;
}

Reach-IsIntact_example :
    IsIntact toy (record_write toy toy_json counting (engine new_store) child w2 at).0.ledger
Reach-IsIntact_example =
    Reach-IsIntact toy toy_json counting toy-IsSound {e = engine new_store} new_store-Fresh
      (next here (wrote child w2 at _ refl))

-- A backend that keeps the names of its calls.
abbrev backend : List Text → Text → Fields → List Text × Result Json
backend u name arguments = (name ∷ u, ok null)

abbrev store_map : Text → WriteMap
store_map content = record { content = λ ctx. ok content; memory_id = λ ctx. ok none }

abbrev mapping : Text → Mapping
mapping content = record {
  namespace = codes "default";
  default_source = web;
  writes = (codes "store", store_map content) ∷ [];
  reads = [];
}

abbrev proxy : Proxy ℕ (List Text)
proxy = record { blackbox = engine one_row; upstream = [] }

call_tool-forward_example :
    ((call_tool toy toy_json counting
        (mapping (codes "b"))
        backend
        proxy
        (codes "store")
        end
        w2
        at).0.upstream
      ≡ codes "store" ∷ [])
    × (((call_tool toy toy_json counting
            (mapping (codes "b"))
            backend
            proxy
            (codes "store")
            end
            w2
            at).1
          ≡ ok null)
        ⊎ ((why : Error) × ((call_tool toy toy_json counting
                (mapping (codes "b"))
                backend
                proxy
                (codes "store")
                end
                w2
                at).1
              ≡ err why)))
call_tool-forward_example =
    call_tool-forward toy toy_json counting (mapping (codes "b")) backend proxy (codes "store") end
      w2 at

abbrev long : Text
long = codes "too long"

store_found : find_map (codes "store") (mapping long).writes ≡ some (store_map long)
unfolding find_map ◌==◌
store_found = refl

handle_upsert-Tagged_example :
    Refused toy toy_json counting (mapping (codes "b")) backend proxy (
      handle_upsert toy toy_json counting
        (mapping (codes "b"))
        backend
        proxy
        (store_map (codes "b"))
        (codes "upsert")
        end
        w2
        at)
    ⊎ Tagged toy toy_json counting (mapping (codes "b")) backend proxy (codes "upsert") end w2 (
        handle_upsert toy toy_json counting
          (mapping (codes "b"))
          backend
          proxy
          (store_map (codes "b"))
          (codes "upsert")
          end
          w2
          at)
handle_upsert-Tagged_example =
    handle_upsert-Tagged toy toy_json counting (mapping (codes "b")) backend proxy
      (store_map (codes "b")) (codes "upsert") end w2 at
