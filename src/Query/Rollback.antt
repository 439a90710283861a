-- ===== src/Query/Rollback.antt =====
-- src/memory_blackbox/query/rollback.py
pub mod Stored
pub mod Effect
use memory_blackbox.Prelude.{
  ℕ, Bool, true, false, List, [], ◌∷◌, ◌++◌, Option, none, some, Text, codes, ◌==◌, contains,
  sorted, Result, ok, err, type_error, ◌>>=◌, if◌then◌else◌,
}
use memory_blackbox.Crypto.{Primitives}
use memory_blackbox.Model.Json.{Json, Orjson, null, str, arr, obj}
use memory_blackbox.Model.Values.{Casts, iterated, get_member}
use memory_blackbox.Model.Records.{
  RollbackEvent, rollback_record, unset, record_state_value, rolled_back, expired, active,
}
use memory_blackbox.Model.Edges.{rolled_back_by}
use memory_blackbox.Storage.{Row, Db}
use memory_blackbox.Ledger.Store.{LedgerStore, append, payload, iter_payloads, is_taken}
use memory_blackbox.Ledger.Store
use memory_blackbox.Dag.{add_edge, exists_in_ledger}
use memory_blackbox.Dag.Closure.{descendants}
use memory_blackbox.Query.BlastRadius.{is_text, seeds_for}

pub record RollbackPlan : Type 0 where
  pub to : Text
  pub scope : Option Text
  pub affected : List Text
  pub dry_run : Bool
  pub applied : Bool
  pub rollback_id : Option Text
  pub reason : Text

abbrev pub payload_in_scope : Option Json → Text → Result Bool
payload_in_scope none scope = ok false
payload_in_scope (some value) scope = do
  namespace ← get_member (codes "namespace") value
  ok (is_text namespace scope)

-- The strings among the added values: other hashable values are no record ids, and a list or an
-- object is not hashable.
abbrev pub hashable_texts : List Json → Result (List Text)
hashable_texts [] = ok []
hashable_texts (str s ∷ vs) = do rest ← hashable_texts vs; ok (s ∷ rest)
hashable_texts (arr xs ∷ vs) = err type_error
hashable_texts (obj fs ∷ vs) = err type_error
hashable_texts (_ ∷ vs) = hashable_texts vs

-- `ids.update(...)` of a looked-up value, by default of `[]`.
abbrev pub update_texts : Option (List Json) → Result (List Text)
update_texts none = err type_error
update_texts (some vs) = hashable_texts vs

-- The ids that one payload adds.
abbrev pub listed_by : Json → Option Json → Result (List Text)
listed_by value kind =
    if is_text kind (codes "rollback")
    then (do affected ← get_member (codes "affected") value; update_texts (iterated affected))
    else ok []

-- The loop of `rolled_back_ids`.
unfoldable pub collect_rolled_back : List (Row × Json) → Result (List Text)
collect_rolled_back [] = ok []
collect_rolled_back ((row, value) ∷ rest) = do
  kind ← get_member (codes "kind") value
  ids ← listed_by value kind
  later ← collect_rolled_back rest
  ok (ids ++ later)

-- `scope or "default"`
abbrev pub namespace_or_default : Option Text → Text
namespace_or_default none = codes "default"
namespace_or_default (some s) = if s == [] then codes "default" else s

module _ (json : Orjson) where
  unfoldable pub in_scope : LedgerStore → Text → Option Text → Result Bool
  in_scope s record_id none = ok true
  in_scope s record_id (some scope) = do
    value ← payload json s record_id
    payload_in_scope value scope

  unfoldable pub filter_scope : LedgerStore → Option Text → List Text → Result (List Text)
  filter_scope s scope [] = ok []
  filter_scope s scope (rid ∷ rids) = do
    keep ← in_scope s rid scope
    rest ← filter_scope s scope rids
    ok (if keep then rid ∷ rest else rest)

  unfoldable pub affected_by : LedgerStore → Text → Option Text → Result (List Text)
  affected_by s to scope = do
    found ← seeds_for json s to
    kept ←
        filter_scope s scope
          (descendants s.db (if is_taken (Store.get s to) then to ∷ found else found) none)
    ok (sorted kept)

  unfoldable pub rolled_back_ids : LedgerStore → Result (List Text)
  rolled_back_ids s = do payloads ← iter_payloads json s; collect_rolled_back payloads

  module _ (casts : Casts) where
    -- `str(payload.get("state", "active"))`
    abbrev pub state_or_active : Option Json → Text
    state_or_active none = record_state_value active
    state_or_active (some state) = casts.to_str state

    abbrev pub state_of_payload : Option Json → Result Text
    state_of_payload none = ok (record_state_value expired)
    state_of_payload (some value) = do
      state ← get_member (codes "state") value
      ok (state_or_active state)

    -- The state of a record that no rollback lists.
    unfoldable pub unlisted_state : LedgerStore → Text → Result Text
    unlisted_state s record_id = do value ← payload json s record_id; state_of_payload value

    unfoldable pub effective_state : LedgerStore → Text → Result Text
    effective_state s record_id = do
      ids ← rolled_back_ids s
      if contains ids record_id
          then ok (record_state_value rolled_back)
          else unlisted_state s record_id

-- The loop that adds the ROLLED_BACK_BY edges, over the ledger's connection.
unfoldable pub add_rollback_edges : LedgerStore → Text → List Text → Text → Result LedgerStore
add_rollback_edges s rollback_id [] now = ok s
add_rollback_edges s rollback_id (rid ∷ rids) now =
    if is_taken (Store.get s rid)
    then (do
      db ← add_edge (exists_in_ledger s.db) s.db rid rollback_id rolled_back_by now
      add_rollback_edges (record s { db = db }) rollback_id rids now)
    else add_rollback_edges s rollback_id rids now

abbrev pub event_for : Text → Text → Text → Option Text → List Text → Text → RollbackEvent
event_for rollback_id reason to scope affected now = record {
  ledger_set = unset;
  rollback_id = rollback_id;
  namespace = namespace_or_default scope;
  reason = reason;
  to = to;
  scope = scope;
  affected = affected;
  applied_at = now;
}

abbrev pub plan_for : Text → Option Text → List Text → Text → RollbackPlan
plan_for to scope affected reason = record {
  to = to;
  scope = scope;
  affected = affected;
  dry_run = true;
  applied = false;
  rollback_id = none;
  reason = reason;
}

-- `rollback` from the event on.
unfoldable pub apply_rollback :
    Primitives
    → Orjson
    → LedgerStore
    → RollbackPlan
    → Text
    → Text
    → Result (LedgerStore × RollbackPlan)
apply_rollback c json s plan rollback_id now = do
  (s', _) ←
      append c json s
        (rollback_record (event_for rollback_id plan.reason plan.to plan.scope plan.affected now))
        now now
  s'' ← add_rollback_edges s' rollback_id plan.affected now
  ok (s'', record plan { dry_run = false; applied = true; rollback_id = some rollback_id })

-- `rollback`; `rollback_id` and `now` stand for the fresh id and the clock.
unfoldable pub rollback :
    Primitives
    → Orjson
    → LedgerStore
    → Text
    → Option Text
    → Bool
    → Text
    → Text
    → Text
    → Result (LedgerStore × RollbackPlan)
rollback c json s to scope dry_run reason rollback_id now = do
  affected ← affected_by json s to scope
  let plan = plan_for to scope affected reason
  if dry_run then ok (s, plan) else apply_rollback c json s plan rollback_id now
