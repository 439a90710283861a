-- ===== src/Capture/Sidecar.antt =====
-- `Sidecar` of src/memory_blackbox/capture/sidecar.py: an upsert is recorded first and forwarded
-- with the id of its record, a query is forwarded first and recorded behind.
use memory_blackbox.Prelude.{
  ◌≡◌, ◌≢◌, ◌⊎◌, [], subst, inl, inr, refl, sym, ap, ◌∙◌, none, some, arith, Text, Result, Error,
  ok, err, eq_refl, eq_iff,
}
use memory_blackbox.Crypto.{Primitives}
use memory_blackbox.Model.Json.{Json, Fields, Orjson, null, str, nil, end, field, get_field}
use memory_blackbox.Model.Records.{LedgerRecord, id_of, write_record}
use memory_blackbox.Capture.Engine.{MemoryBlackbox, WriteRequest, Times, Inspect}
use memory_blackbox.Capture.Effect.{Outcome, Recorded, Logged-Recorded, Logged-id_of}
use memory_blackbox.Capture.Writes.{hashed, record_write-Outcome}
use memory_blackbox.Capture.Proxies.{
  CallCtx, WriteMap, ReadMap, Mapping, Proxy, find_map, set_field, provenance_tag, write_request,
  write_with, capture_read, respond,
}

module _ {D : Type 0} (c : Primitives) (json : Orjson) (inspect : Inspect D) (m : Mapping) where
  module _ {U : Type 0} (forward : U → Text → Fields → U × Result Json) where
    abbrev pub forwarded : MemoryBlackbox D → U × Result Json → Proxy D U × Result Json
    forwarded e (u, result) = (record { blackbox = e; upstream = u }, result)

    -- `_handle_upsert` behind the recording.
    abbrev pub forward_tagged :
        U → Text → Fields → MemoryBlackbox D × Result LedgerRecord → Proxy D U × Result Json
    forward_tagged u op payload (e, ok r) =
        forwarded e (forward u op (set_field provenance_tag (str (id_of r)) payload))
    forward_tagged u op payload (e, err why) = (record { blackbox = e; upstream = u }, err why)

    abbrev pub upsert_request : Result Text → Result WriteRequest
    upsert_request (ok content) = ok (write_request m content none)
    upsert_request (err why) = err why

    unfoldable pub handle_upsert :
        Proxy D U → WriteMap → Text → Fields → Text → Times → Proxy D U × Result Json
    handle_upsert w spec op payload id times =
        let ctx : CallCtx = record { args = nil; kwargs = payload; result = null } in
        forward_tagged w.upstream op payload
          (write_with c json inspect m w.blackbox id times (upsert_request (spec.content ctx)))

    -- `_handle_query` behind the backend's answer.
    abbrev pub log_query :
        MemoryBlackbox D
        → ReadMap
        → Fields
        → Text
        → Times
        → U × Result Json
        → Proxy D U × Result Json
    log_query e spec payload id times (u, ok result) = respond c json inspect m u result (
        capture_read c json inspect m e spec
          (record { args = nil; kwargs = payload; result = result }) id times)
    log_query e spec payload id times (u, err why) =
        (record { blackbox = e; upstream = u }, err why)

    unfoldable pub handle_query :
        Proxy D U → ReadMap → Text → Fields → Text → Times → Proxy D U × Result Json
    handle_query w spec op payload id times =
        log_query w.blackbox spec payload id times (forward w.upstream op payload)

    -- `Sidecar.handle`
    unfoldable pub handle : Proxy D U → Text → Fields → Text → Times → Proxy D U × Result Json
    handle w op payload id times = elim (find_map op m.writes) [
      | some spec ↦ handle_upsert w spec op payload id times
      | none ↦ elim (find_map op m.reads) [
        | some spec ↦ handle_query w spec op payload id times
        | none ↦ forwarded w.blackbox (forward w.upstream op payload)
      ]
    ]

get_field-set : (key : Text) (v : Json) (fs : Fields) → get_field key (set_field key v fs) ≡ some v
unfolding get_field set_field
get_field-set key v end = ground (arith, eq_refl key)
get_field-set key v (field j w fs) = ground (arith, get_field-set key v fs, eq_refl key)

get_field-set_other :
    (key k : Text) (v : Json) (fs : Fields)
    → key ≢ k
    → get_field key (set_field k v fs) ≡ get_field key fs
unfolding get_field set_field
get_field-set_other key k v end other = ground (arith, eq_iff k key)
get_field-set_other key k v (field j w fs) other =
    ground (arith, get_field-set_other key k v fs other, eq_iff k key, eq_iff j k, eq_iff j key)

module _ {D : Type 0} (c : Primitives) (json : Orjson) (inspect : Inspect D) (m : Mapping) where
  module _ {U : Type 0} (forward : U → Text → Fields → U × Result Json) where
    -- An upsert that is refused never reaches the backend and changes no ledger.
    pub record Refused (w : Proxy D U) (out : Proxy D U × Result Json) : Type 0 where
      pub same_upstream : out.0.upstream ≡ w.upstream
      pub same_ledger : out.0.blackbox.ledger ≡ w.blackbox.ledger
      pub why : Error
      pub raised : out.1 ≡ err why

    -- An upsert that is not refused has a row under the id that its payload carries to the backend.
    pub record Tagged (w : Proxy D U) (op : Text) (payload : Fields) (id : Text)
        (out : Proxy D U × Result Json) : Type 0 where
      pub recorded : Recorded id [] w.blackbox.ledger out.0.blackbox.ledger
      pub sent : Fields
      pub tagged : get_field provenance_tag sent ≡ some (str id)
      pub rest : (key : Text) → key ≢ provenance_tag → get_field key sent ≡ get_field key payload
      pub answer : (out.0.upstream, out.1) ≡ forward w.upstream op sent

    -- A write with no edges.
    upsert-Outcome :
        (w : Proxy D U) (op : Text) (payload : Fields) (id : Text) (r : LedgerRecord)
        (out : MemoryBlackbox D × Result LedgerRecord)
        → id_of r ≡ id
        → Outcome c json r [] w.blackbox.ledger out
        → Refused w (forward_tagged c json inspect m forward w.upstream op payload out)
          ⊎ Tagged w op payload id
              (forward_tagged c json inspect m forward w.upstream op payload out)
    upsert-Outcome w op payload id r (e', err why) named same =
        inl (record { same_upstream = refl; same_ledger = same; why = why; raised = refl })
    upsert-Outcome w op payload id r (e', ok r') named (l, back) =
        let carried : id_of r' ≡ id = sym (ap id_of back) ∙ Logged-id_of c json l ∙ named in
        inr (record {
          recorded =
              subst (λ x. Recorded x [] w.blackbox.ledger e'.ledger) named
                (Logged-Recorded c json l);
          sent = set_field provenance_tag (str (id_of r')) payload;
          tagged =
              get_field-set provenance_tag (str (id_of r')) payload
              ∙ ap (λ x. some (str x)) carried;
          rest = λ key other. get_field-set_other key provenance_tag (str (id_of r')) payload other;
          answer = refl;
        })

    -- Every upsert through the sidecar either raises before the backend is reached, with the ledger
    -- as it was, or adds one row and reaches the backend with the payload in which the tag, and
    -- nothing else, is set to the id of that row.
    pub handle_upsert-Tagged :
        (w : Proxy D U) (spec : WriteMap) (op : Text) (payload : Fields) (id : Text) (times : Times)
        → Refused w (handle_upsert c json inspect m forward w spec op payload id times)
          ⊎ Tagged w op payload id
              (handle_upsert c json inspect m forward w spec op payload id times)
    unfolding handle_upsert
    handle_upsert-Tagged w spec op payload id times =
        go (spec.content (record { args = nil; kwargs = payload; result = null }))
      where
        go :
            (content : Result Text)
            → Refused w (
                forward_tagged c json inspect m forward w.upstream op payload (
                  write_with c json inspect m w.blackbox id times
                    (upsert_request c json inspect m forward content)))
              ⊎ Tagged w op payload id (
                  forward_tagged c json inspect m forward w.upstream op payload (
                    write_with c json inspect m w.blackbox id times
                      (upsert_request c json inspect m forward content)))
        go (ok content) =
            upsert-Outcome w op payload id
              (write_record (hashed c json inspect (write_request m content none) id times.created))
              _ (unfold id_of in refl)
              (record_write-Outcome c json inspect w.blackbox (write_request m content none) id
                times)
        go (err why) =
            inl (record { same_upstream = refl; same_ledger = refl; why = why; raised = refl })
