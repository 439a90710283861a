-- ===== src/Query/BlastRadius.antt =====
-- src/memory_blackbox/query/blast_radius.py. A payload is a parsed object; `get` on a value that is
-- no object finds nothing.
pub mod Exact
use memory_blackbox.Prelude.{
  ℕ, ◌≡◌, ◌↔◌, ◌⊎◌, inl, inr, refl, Bool, true, false, ◌&&◌, ◌||◌, List, [], ◌∷◌, Option, none,
  some, arith, Text, codes, ◌==◌, eq_iff, contains, In, to_set, In-to_set, In-cons, not-In-nil,
  Result, ok, err, ◌>>=◌, >>=-eq-ok, if◌then◌else◌,
}
use memory_blackbox.Model.Json.{Json, Orjson, null, bool, int, float, str, arr, get, obj, end}
use memory_blackbox.Storage.{Row, Db}
use memory_blackbox.Ledger.Store.{LedgerStore, iter_payloads}
use memory_blackbox.Dag.{out_neighbors}
use memory_blackbox.Dag.Closure.{Reachable, descendants, descendants-Reachable}

-- Whether a looked-up value is this text.
abbrev pub is_text : Option Json → Text → Bool
is_text (some (str s)) t = s == t
is_text _ t = false

pub is_text_iff : (o : Option Json) (t : Text) → (is_text o t ≡ true) ↔ (o ≡ some (str t))
is_text_iff none t = (λ h. cc, λ h. cc)
is_text_iff (some null) t = (λ h. cc, λ h. cc)
is_text_iff (some (bool b)) t = (λ h. cc, λ h. cc)
is_text_iff (some (int n)) t = (λ h. cc, λ h. cc)
is_text_iff (some (float bits)) t = (λ h. cc, λ h. cc)
is_text_iff (some (str s)) t = ground (arith, eq_iff s t)
is_text_iff (some (arr vs)) t = (λ h. cc, λ h. cc)
is_text_iff (some (obj fs)) t = (λ h. cc, λ h. cc)

-- `payload.get("source") or {}`
unfoldable pub source_of : Json → Json
source_of payload = elim (get (codes "source") payload) [ none ↦ obj end | some source ↦ source ]

unfoldable pub source_matches : Json → Text → Bool
source_matches payload selector =
    is_text (get (codes "record_id") payload) selector
    || is_text (get (codes "source_id") (source_of payload)) selector
    || is_text (get (codes "source_type") (source_of payload)) selector
    || is_text (get (codes "locator") (source_of payload)) selector

-- A write whose source, or id, matches the selector.
unfoldable pub is_seed : Text → Json → Bool
is_seed selector payload =
    is_text (get (codes "kind") payload) (codes "write") && source_matches payload selector

-- The loop of `seeds_for`.
unfoldable pub collect_seeds : Text → List (Row × Json) → List Text
collect_seeds selector [] = []
collect_seeds selector ((row, payload) ∷ rest) =
    let seeds = collect_seeds selector rest in
    if is_seed selector payload then row.record_id ∷ seeds else seeds

unfoldable pub seeds_for : Orjson → LedgerStore → Text → Result (List Text)
seeds_for json s selector = do
  payloads ← iter_payloads json s
  ok (to_set (collect_seeds selector payloads))

abbrev pub closure_or_empty : Db → List Text → List Text
closure_or_empty db [] = []
closure_or_empty db (x ∷ seeds) = descendants db (x ∷ seeds) none

unfoldable pub blast_radius : Orjson → LedgerStore → Text → Result (List Text)
blast_radius json s selector = do
  seeds ← seeds_for json s selector
  ok (closure_or_empty s.db seeds)
