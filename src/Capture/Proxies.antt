-- ===== src/Capture/Proxies.antt =====
-- src/memory_blackbox/capture/gateway.py, sidecar.py and wrapper.py: proxies that forward a call to
-- a memory backend and record it. The backend is a state with a function for its calls; what it
-- returns is a JSON value. A dictionary of maps is a list of pairs.
use memory_blackbox.Prelude.{
  ℕ, List, [], ◌∷◌, Option, none, some, Text, codes, ◌==◌, if◌then◌else◌, Result, ok, err, ◌>>=◌,
}
use memory_blackbox.Crypto.{Primitives}
use memory_blackbox.Model.Json.{Json, Items, Fields, Orjson, end, field}
use memory_blackbox.Model.Records.{Source, LedgerRecord, semantic}
use memory_blackbox.Capture.Engine.{
  MemoryBlackbox, WriteRequest, RetrievalRequest, Times, Inspect, record_write, record_retrieval,
}

-- The arguments and result of one intercepted call.
pub record CallCtx : Type 0 where
  pub args : Items
  pub kwargs : Fields
  pub result : Json

-- The extractors of an adapter, which may raise.
pub record WriteMap : Type 0 where
  pub content : CallCtx → Result Text
  pub memory_id : CallCtx → Result (Option Text)

pub record ReadMap : Type 0 where
  pub query : CallCtx → Result Text
  pub returned : CallCtx → Result (List Text)
  pub scores : CallCtx → Result (List ℕ)

-- `maps[name]`, `none` for a name that is not in the dictionary.
unfoldable pub find_map {ℓ} : {M : Type ℓ} → Text → List (Text × M) → Option M
find_map name [] = none
find_map name ((n, m) ∷ maps) = if n == name then some m else find_map name maps

-- `{**payload, key: value}`
unfoldable pub set_field : Text → Json → Fields → Fields
set_field key value end = field key value end
set_field key value (field k v fs) =
    if k == key then field k value fs else field k v (set_field key value fs)

abbrev pub provenance_tag : Text
provenance_tag = codes "memory_blackbox_record_id"

-- What a proxy is built with: its namespace, its default source and its maps.
pub record Mapping : Type 0 where
  pub namespace : Text
  pub default_source : Source
  pub writes : List (Text × WriteMap)
  pub reads : List (Text × ReadMap)

abbrev pub write_request : Mapping → Text → Option Text → WriteRequest
write_request m content memory_id = record {
  content = content;
  source = m.default_source;
  namespace = m.namespace;
  memory_id = memory_id;
  memory_type = semantic;
  parents = [];
  caused_by_retrieval = [];
}

abbrev pub retrieval_request : Mapping → Text → List Text → List ℕ → RetrievalRequest
retrieval_request m query returned scores = record {
  query = query;
  returned = returned;
  scores = scores;
  namespace = m.namespace;
  session_id = none;
  turn_id = none;
}

-- The engine and the backend behind a proxy.
pub record Proxy (D U : Type 0) : Type 0 where
  pub blackbox : MemoryBlackbox D
  pub upstream : U

module _ {D : Type 0} (c : Primitives) (json : Orjson) (inspect : Inspect D) (m : Mapping) where
  abbrev pub write_with :
      MemoryBlackbox D → Text → Times → Result WriteRequest → MemoryBlackbox D × Result LedgerRecord
  write_with e id times (ok q) = record_write c json inspect e q id times
  write_with e id times (err why) = (e, err why)

  -- `record_write` on what a map extracts from a call.
  unfoldable pub capture_write :
      MemoryBlackbox D → WriteMap → CallCtx → Text → Times → MemoryBlackbox D × Result LedgerRecord
  capture_write e spec ctx id times = write_with e id times (do
    content ← spec.content ctx
    memory_id ← spec.memory_id ctx
    ok (write_request m content memory_id))

  abbrev pub read_with :
      MemoryBlackbox D
      → Text
      → Times
      → Result RetrievalRequest
      → MemoryBlackbox D × Result LedgerRecord
  read_with e id times (ok q) = record_retrieval c json e q id times
  read_with e id times (err why) = (e, err why)

  -- `record_retrieval` on what a map extracts from a call.
  unfoldable pub capture_read :
      MemoryBlackbox D → ReadMap → CallCtx → Text → Times → MemoryBlackbox D × Result LedgerRecord
  capture_read e spec ctx id times = read_with e id times (do
    query ← spec.query ctx
    returned ← spec.returned ctx
    scores ← spec.scores ctx
    ok (retrieval_request m query returned scores))

  -- What a caller gets behind a recording: the backend's response, or the recording's exception.
  abbrev pub respond :
      {U : Type 0} → U → Json → MemoryBlackbox D × Result LedgerRecord → Proxy D U × Result Json
  respond u response (e, ok r) = (record { blackbox = e; upstream = u }, ok response)
  respond u response (e, err why) = (record { blackbox = e; upstream = u }, err why)

  -- What a proxy does behind a forwarded call: a write or a read is recorded, another call is not.
  unfoldable pub log_call :
      {U : Type 0} → MemoryBlackbox D → U → Text → CallCtx → Text → Times → Proxy D U × Result Json
  log_call e u name ctx id times = elim (find_map name m.writes) [
    | some spec ↦ respond u ctx.result (capture_write e spec ctx id times)
    | none ↦ elim (find_map name m.reads) [
      | some spec ↦ respond u ctx.result (capture_read e spec ctx id times)
      | none ↦ (record { blackbox = e; upstream = u }, ok ctx.result)
    ]
  ]
