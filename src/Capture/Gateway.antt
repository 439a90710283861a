-- ===== src/Capture/Gateway.antt =====
-- `McpGateway` of src/memory_blackbox/capture/gateway.py, and the methods of `WrappedClient` of
-- src/memory_blackbox/capture/wrapper.py: both forward first and record behind.
use memory_blackbox.Prelude.{
  ◌≡◌, ◌<◌, ◌⊎◌, inl, inr, refl, Option, some, arith, Text, length, Result, Error, ok, err,
  content_too_large, Option-cases,
}
use memory_blackbox.Codec.Utf8.{utf8}
use memory_blackbox.Crypto.{Primitives}
use memory_blackbox.Model.Json.{Json, Items, Fields, Orjson, nil}
use memory_blackbox.Model.Records.{LedgerRecord}
use memory_blackbox.Capture.Engine.{MemoryBlackbox, Times, Inspect}
use memory_blackbox.Capture.Writes.{record_write-large}
use memory_blackbox.Capture.Proxies.{
  CallCtx, WriteMap, Mapping, Proxy, find_map, write_request, capture_write, capture_read, respond,
  log_call,
}

module _ {D : Type 0} (c : Primitives) (json : Orjson) (inspect : Inspect D) (m : Mapping) where
  -- A call behind the backend's answer.
  abbrev pub after_forward :
      {U : Type 0}
      → MemoryBlackbox D
      → Text
      → Items
      → Fields
      → Text
      → Times
      → U × Result Json
      → Proxy D U × Result Json
  after_forward e name args kwargs id times (u, ok result) =
      log_call c json inspect m e u name (record { args = args; kwargs = kwargs; result = result })
        id times
  after_forward e name args kwargs id times (u, err why) =
      (record { blackbox = e; upstream = u }, err why)

  -- `McpGateway.call_tool`
  unfoldable pub call_tool :
      {U : Type 0}
      → (U → Text → Fields → U × Result Json)
      → Proxy D U
      → Text
      → Fields
      → Text
      → Times
      → Proxy D U × Result Json
  call_tool forward w name arguments id times =
      after_forward w.blackbox name nil arguments id times (forward w.upstream name arguments)

  -- A method that `WrappedClient.__getattr__` returns, called.
  unfoldable pub call_method :
      {U : Type 0}
      → (U → Text → Items → Fields → U × Result Json)
      → Proxy D U
      → Text
      → Items
      → Fields
      → Text
      → Times
      → Proxy D U × Result Json
  call_method client w name args kwargs id times =
      after_forward w.blackbox name args kwargs id times (client w.upstream name args kwargs)

  module _ {U : Type 0} where
    respond_upstream :
        (u : U) (response : Json) (out : MemoryBlackbox D × Result LedgerRecord)
        → ((respond c json inspect m u response out).0.upstream ≡ u)
          × (((respond c json inspect m u response out).1 ≡ ok response)
              ⊎ ((why : Error) × ((respond c json inspect m u response out).1 ≡ err why)))
    respond_upstream u response (e, ok r) = (refl, inl refl)
    respond_upstream u response (e, err why) = (refl, inr (why, refl))

    log_call_upstream :
        (e : MemoryBlackbox D) (u : U) (name : Text) (ctx : CallCtx) (id : Text) (times : Times)
        → ((log_call c json inspect m e u name ctx id times).0.upstream ≡ u)
          × (((log_call c json inspect m e u name ctx id times).1 ≡ ok ctx.result)
              ⊎ ((why : Error) × ((log_call c json inspect m e u name ctx id times).1 ≡ err why)))
    unfolding log_call
    log_call_upstream e u name ctx id times = elim (Option-cases (find_map name m.writes)) [
      | inr (spec, found) ↦
          rw (found, log_call)
            (respond_upstream u ctx.result (capture_write c json inspect m e spec ctx id times))
      | inl missing ↦ elim (Option-cases (find_map name m.reads)) [
        | inr (spec, found) ↦
            rw (missing, found, log_call)
              (respond_upstream u ctx.result (capture_read c json inspect m e spec ctx id times))
        | inl absent ↦ rw (missing, absent, log_call) (refl, inl refl)
      ]
    ]

    module _ (forward : U → Text → Fields → U × Result Json) (w : Proxy D U) where
      -- A call through the gateway reaches the backend once and with its arguments as they are, and
      -- what it returns is the backend's own response, or an exception.
      pub call_tool-forward :
          (name : Text) (arguments : Fields) (id : Text) (times : Times)
          → ((call_tool forward w name arguments id times).0.upstream
              ≡ (forward w.upstream name arguments).0)
            × (((call_tool forward w name arguments id times).1
                  ≡ (forward w.upstream name arguments).1)
                ⊎ ((why : Error) × ((call_tool forward w name arguments id times).1 ≡ err why)))
      unfolding call_tool
      call_tool-forward name arguments id times = go (forward w.upstream name arguments)
        where
          go :
              (out : U × Result Json)
              → ((after_forward w.blackbox name nil arguments id times out).0.upstream ≡ out.0)
                × (((after_forward w.blackbox name nil arguments id times out).1 ≡ out.1)
                    ⊎ ((why : Error) × ((after_forward w.blackbox name nil arguments id times out).1
                          ≡ err why)))
          go (u, ok result) = log_call_upstream w.blackbox u name _ id times
          go (u, err why) = (refl, inl refl)

      -- Content over the limit: the backend has run the write, the ledger has no row of it, and the
      -- caller gets the engine's exception in place of the backend's response.
      pub call_tool-large :
          (name : Text) (arguments : Fields) (id : Text) (times : Times) (spec : WriteMap) (u : U)
          (result : Json) (content : Text) (memory_id : Option Text)
          → find_map name m.writes ≡ some spec
          → forward w.upstream name arguments ≡ (u, ok result)
          → spec.content (record { args = nil; kwargs = arguments; result = result }) ≡ ok content
          → spec.memory_id (record { args = nil; kwargs = arguments; result = result })
            ≡ ok memory_id
          → w.blackbox.max_content_bytes < length (utf8 content)
          → call_tool forward w name arguments id times
            ≡ (record { blackbox = w.blackbox; upstream = u }, err content_too_large)
      unfolding call_tool log_call capture_write
      call_tool-large name arguments id times spec u result content memory_id found run p q large =
          let refused =
            record_write-large c json inspect w.blackbox (write_request m content memory_id) id
              times (ground arith) in
          rw run (rw (found, log_call) (rw (p, q) (rw refused refl)))
