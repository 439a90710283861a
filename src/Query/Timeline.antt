-- ===== src/Query/Timeline.antt =====
-- src/memory_blackbox/query/timeline.py. `lower` stands for `str.lower`, whose tables are the
-- Unicode database's.
use memory_blackbox.Prelude.{
  ◌≡◌, refl, Bool, true, false, ◌&&◌, ◌||◌, List, [], ◌∷◌, Option, none, some, Text, codes, nat_eq,
  if◌then◌else◌, Result, ok, ◌>>=◌, text_leb, text_leb_total, sort_by, IsSorted, sort_by-Perm,
  sort_by-IsSorted,
}
use mathlib.Core.List.{Perm}
use memory_blackbox.Model.Json.{Json, Orjson, get}
use memory_blackbox.Model.Values.{Casts, is_falsy, or_value}
use memory_blackbox.Storage.{Row}
use memory_blackbox.Ledger.Store.{LedgerStore, iter_payloads}

pub record Event : Type 0 where
  pub record_id : Text
  pub kind : Option Json
  pub timestamp : Text
  pub text : Text

-- `t.startswith(p)` and `p in t`.
unfoldable pub starts_with : Text → Text → Bool
starts_with [] t = true
starts_with (x ∷ p) [] = false
starts_with (x ∷ p) (y ∷ t) = nat_eq x y && starts_with p t

unfoldable pub occurs_in : Text → Text → Bool
occurs_in p [] = starts_with p []
occurs_in p (x ∷ t) = starts_with p (x ∷ t) || occurs_in p t

module _ (casts : Casts) where
  -- `str(value or "")`
  abbrev pub text_or_empty : Option Json → Text
  text_or_empty none = []
  text_or_empty (some v) = if is_falsy (some v) then [] else casts.to_str v

  -- `_event_text`
  unfoldable pub event_text : Json → Text
  event_text payload = text_or_empty (
      or_value (get (codes "content") payload) (
        or_value (get (codes "query") payload)
          (or_value (get (codes "summary") payload) (get (codes "reason") payload))))

  -- `_event_time`
  unfoldable pub event_time : Json → Text
  event_time payload =
      text_or_empty (or_value (get (codes "created_at") payload) (get (codes "applied_at") payload))

  -- `payload.get("kind", "")`, where a missing key is `none`.
  unfoldable pub event_of : Row → Json → Event
  event_of row payload = record {
    record_id = row.record_id;
    kind = get (codes "kind") payload;
    timestamp = event_time payload;
    text = event_text payload;
  }

  module _ (lower : Text → Text) where
    unfoldable pub mentions : Text → Json → Bool
    mentions topic payload = occurs_in (lower topic) (lower (event_text payload))

    -- The loop of `timeline`.
    unfoldable pub collect_events : Text → List (Row × Json) → List Event
    collect_events topic [] = []
    collect_events topic ((row, payload) ∷ rest) =
        let later = collect_events topic rest in
        if mentions topic payload then event_of row payload ∷ later else later

    abbrev pub earlier : Event → Event → Bool
    earlier a b = text_leb a.timestamp b.timestamp

    unfoldable pub timeline : Orjson → LedgerStore → Text → Result (List Event)
    timeline json s topic = do
      payloads ← iter_payloads json s
      ok (sort_by earlier (collect_events topic payloads))

    -- If the payloads of all rows can be read, `timeline` returns, in the order of their
    -- timestamps, as often, exactly the events of the rows whose text mentions the topic.
    pub timeline-IsSorted :
        (json : Orjson) (s : LedgerStore) (topic : Text) (payloads : List (Row × Json))
        → iter_payloads json s ≡ ok payloads
        → (events : List Event) × (timeline json s topic ≡ ok events)
          × IsSorted earlier events
          × Perm events (collect_events topic payloads)
    unfolding timeline
    timeline-IsSorted json s topic payloads h = (
      sort_by earlier (collect_events topic payloads),
      rw h refl,
      sort_by-IsSorted earlier (λ a b. text_leb_total a.timestamp b.timestamp)
          (collect_events topic payloads),
      sort_by-Perm earlier (collect_events topic payloads),
    )
