-- ===== src/Query/Trace.antt =====
-- src/memory_blackbox/query/trace.py. `recency_leb` compares `_recency_key` of two texts, which is
-- the package `datetime`'s timestamp, negated, or 0. The ancestors stand in the order of the walk.
use memory_blackbox.Prelude.{
  ℕ, ◌-◌, Bool, not, ◌&&◌, ◌||◌, List, [], ◌∷◌, ◌++◌, map, Option, none, some, Text, codes, nat_eq,
  ltb, leb, ◌==◌, length, if◌then◌else◌, Result, ok, err, type_error, ◌>>=◌, sort_by,
}
use memory_blackbox.Model.Json.{Json, Orjson, str, arr, obj, end}
use memory_blackbox.Model.Values.{is_falsy, get_member}
use memory_blackbox.Storage.{Db}
use memory_blackbox.Ledger.Store.{LedgerStore, payload}
use memory_blackbox.Dag.Traverse.{backward}
use memory_blackbox.Dag.Closure.{descendants}
use memory_blackbox.Query.BlastRadius.{is_text}

pub record TraceRoot : Type 0 where
  pub record_id : Text
  pub source_id : Option Json
  pub source_type : Option Json
  pub trust_level : Json
  pub created_at : Json
  pub centrality : ℕ

pub record ProvenanceTrace : Type 0 where
  pub action_id : Text
  pub roots : List TraceRoot
  pub ancestors : List Text

-- `_SUSPICION` with the default of the lookup.
abbrev pub suspicion_of : Text → ℕ
suspicion_of s =
    if s == codes "quarantined"
    then 0
    else if s == codes "untrusted"
    then 1
    else if s == codes "semi_trusted"
    then 2
    else if s == codes "trusted"
    then 3
    else if s == codes "system"
    then 4
    else 1

-- `_SUSPICION.get(trust_level, 1)`; a list or an object is not hashable.
abbrev pub suspicion : Json → Result ℕ
suspicion (str s) = ok (suspicion_of s)
suspicion (arr vs) = err type_error
suspicion (obj fs) = err type_error
suspicion _ = ok 1

-- What `_recency_key` reads: `fromisoformat` takes only a text.
abbrev pub time_text : Json → Result Text
time_text (str s) = ok s
time_text _ = err type_error

-- The sort key, with the text whose time it compares.
pub record SortKey : Type 0 where
  pub level : ℕ
  pub time : Text
  pub weight : ℕ

abbrev pub sort_key : TraceRoot → Result SortKey
sort_key r = do
  level ← suspicion r.trust_level
  time ← time_text r.created_at
  ok (record { level = level; time = time; weight = r.centrality })

-- The keys that `sort` computes before it compares.
unfoldable pub keyed : List TraceRoot → Result (List (SortKey × TraceRoot))
keyed [] = ok []
keyed (r ∷ rs) = do key ← sort_key r; rest ← keyed rs; ok ((key, r) ∷ rest)

-- `value or {}`
abbrev pub object_or_empty : Option Json → Json
object_or_empty none = obj end
object_or_empty (some source) = if is_falsy (some source) then obj end else source

abbrev pub value_or_default : Json → Option Json → Json
value_or_default other none = other
value_or_default other (some value) = value

-- A candidate for a payload that is a write.
unfoldable pub root_for : Db → Text → Json → Result TraceRoot
root_for db record_id value = do
  found ← get_member (codes "source") value
  source_id ← get_member (codes "source_id") (object_or_empty found)
  source_type ← get_member (codes "source_type") (object_or_empty found)
  trust_level ← get_member (codes "trust_level") (object_or_empty found)
  created_at ← get_member (codes "created_at") value
  ok (record {
    record_id = record_id;
    source_id = source_id;
    source_type = source_type;
    trust_level = value_or_default (str (codes "untrusted")) trust_level;
    created_at = value_or_default (str []) created_at;
    centrality = length (descendants db (record_id ∷ []) none) - 1;
  })

abbrev pub root_of_kind : Db → Text → Json → Option Json → Result (List TraceRoot)
root_of_kind db record_id value kind =
    if is_text kind (codes "write")
    then (do root ← root_for db record_id value; ok (root ∷ []))
    else ok []

unfoldable pub write_root : Db → Text → Option Json → Result (List TraceRoot)
write_root db record_id none = ok []
write_root db record_id (some value) = do
  kind ← get_member (codes "kind") value
  root_of_kind db record_id value kind

-- The loop of `trace`.
unfoldable pub collect_roots : Orjson → LedgerStore → List Text → Result (List TraceRoot)
collect_roots json s [] = ok []
collect_roots json s (id ∷ ids) = do
  value ← payload json s id
  root ← write_root s.db id value
  rest ← collect_roots json s ids
  ok (root ++ rest)

module _ (recency_leb : Text → Text → Bool) where
  -- The order of the keys: suspicion, recency, centrality from above.
  abbrev pub key_leb : SortKey × TraceRoot → SortKey × TraceRoot → Bool
  key_leb (a, r) (b, q) =
      ltb a.level b.level
      || (nat_eq a.level b.level
          && (not (recency_leb b.time a.time)
              || (recency_leb a.time b.time && leb b.weight a.weight)))

  abbrev pub ranked : Text → List Text → List (SortKey × TraceRoot) → ProvenanceTrace
  ranked action_id ancestors roots = record {
    action_id = action_id;
    roots = map (λ (root : SortKey × TraceRoot). root.1) (sort_by key_leb roots);
    ancestors = ancestors;
  }

  -- `trace` behind the walk over the ancestors.
  abbrev pub trace_from :
      Orjson → LedgerStore → Text → Option (List Text) → Result (Option ProvenanceTrace)
  trace_from json s action_id none = ok none
  trace_from json s action_id (some ancestors) = do
    roots ← collect_roots json s ancestors
    keys ← keyed roots
    ok (some (ranked action_id ancestors keys))

  -- `trace`; `none` is a walk that ran out of fuel.
  unfoldable pub trace : Orjson → LedgerStore → Text → Result (Option ProvenanceTrace)
  trace json s action_id = trace_from json s action_id (backward s.db action_id none none)
