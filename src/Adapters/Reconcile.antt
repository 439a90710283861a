-- ===== src/Adapters/Reconcile.antt =====
-- The reconciliation of src/memory_blackbox/adapters/base.py.
use memory_blackbox.Prelude.{
  ◌≡◌, ◌↔◌, ◌⊎◌, inl, inr, refl, ap, Bool, true, false, List, [], ◌∷◌, Option, none, some, arith,
  Text, codes, contains, In, In-cons, if◌then◌else◌, Result, ok, ◌>>=◌, Bool-cases, subst, sym, ◌∙◌,
}
use memory_blackbox.Model.Json.{Json, Orjson, Fields, str, obj, get, get_field}
use memory_blackbox.Model.Values.{Casts, is_falsy, get_member}
use memory_blackbox.Storage.{Row}
use memory_blackbox.Ledger.Store.{LedgerStore, iter_payloads}
use memory_blackbox.Query.BlastRadius.{is_text, is_text_iff}

not-true : (b : Bool) → ¬ (b ≡ true) → b ≡ false
not-true true h = absurd (h refl)
not-true false h = refl

module _ (casts : Casts) where
  -- `str(payload["memory_id"])` of a write that has one.
  abbrev pub cast_or_none : Option Json → Option Text
  cast_or_none none = none
  cast_or_none (some v) = if is_falsy (some v) then none else some (casts.to_str v)

  unfoldable pub written_id : Json → Result (Option Text)
  written_id payload = do
    kind ← get_member (codes "kind") payload
    memory_id ← get_member (codes "memory_id") payload
    ok (if is_text kind (codes "write") then cast_or_none memory_id else none)

  abbrev pub add_id : Option Text → List Text → List Text
  add_id none ids = ids
  add_id (some id) ids = id ∷ ids

  -- The loop of `ledger_memory_ids`.
  unfoldable pub collect_ids : List (Row × Json) → Result (List Text)
  collect_ids [] = ok []
  collect_ids ((row, payload) ∷ rest) = do
    id ← written_id payload
    ids ← collect_ids rest
    ok (add_id id ids)

  abbrev pub orphans_of : List Text → List Text → List Text
  orphans_of known [] = []
  orphans_of known (id ∷ ids) =
      let rest = orphans_of known ids in if contains known id then rest else id ∷ rest

  module _ (json : Orjson) where
    unfoldable pub ledger_memory_ids : LedgerStore → Result (List Text)
    ledger_memory_ids s = do payloads ← iter_payloads json s; collect_ids payloads

    unfoldable pub reconcile : LedgerStore → List Text → Result (List Text)
    reconcile s backend_ids = do known ← ledger_memory_ids s; ok (orphans_of known backend_ids)

  -- A payload of kind "write" whose memory id is not false and reads as this text.
  pub record IsWrite (id : Text) (payload : Json) : Type 0 where
    pub kind : get (codes "kind") payload ≡ some (str (codes "write"))
    pub memory_id : Json
    pub found : get (codes "memory_id") payload ≡ some memory_id
    pub truthy : is_falsy (some memory_id) ≡ false
    pub reads : casts.to_str memory_id ≡ id

  -- Some row's payload is a write of this memory id.
  abbrev pub IsWritten : Text → List (Row × Json) → Type 0
  IsWritten id [] = ⊥
  IsWritten id ((row, payload) ∷ rest) = IsWrite id payload ⊎ IsWritten id rest

  -- The id that an object gives is that of the write it is.
  cast_or_none_iff :
      (o : Option Json) (id : Text)
      → (cast_or_none o ≡ some id)
        ↔ ((v : Json) × (o ≡ some v) × (is_falsy (some v) ≡ false) × (casts.to_str v ≡ id))
  cast_or_none_iff none id = (λ h. cc, λ h. cc (h.1))
  cast_or_none_iff (some v) id = elim (Bool-cases (is_falsy (some v))) [
    | inl falsy ↦ (
      λ h. let e : none ≡ some id = (rw falsy refl) ∙ h in cc,
      λ h.
          let same : v ≡ h.0 = ground (arith, h.1) in
          let e : is_falsy (some v) ≡ false = ap (λ x. is_falsy (some x)) same ∙ h.2 in cc,
    )
    | inr truthy ↦ rw truthy (
      λ h. (v, refl, truthy, ground (arith, h)),
      λ h.
          let same : v ≡ h.0 = ground (arith, h.1) in
          ap (λ x. some (casts.to_str x)) same ∙ ap some h.3,
    )
  ]

  In-add_id :
      {Rest : Type 0} (o : Option Text) (ids : List Text) (id : Text)
      → In id ids ↔ Rest
      → In id (add_id o ids) ↔ ((o ≡ some id) ⊎ Rest)
  In-add_id none ids id h = (λ i. inr (h.0 i), λ e. elim e [ inl same ↦ cc | inr r ↦ h.1 r ])
  In-add_id (some other) ids id h =
      let parts = In-cons id other ids in
      (
        λ i. elim (parts.0 i) [ inl e ↦ inl (ap some e) | inr later ↦ inr (h.0 later) ],
        λ e. parts.1 (elim e [ inl same ↦ inl (cc) | inr r ↦ inr (h.1 r) ]),
      )

  written_id-IsWrite :
      (fs : Fields)
      → (o : Option Text) × (written_id (obj fs) ≡ ok o)
        × ((id : Text) → (o ≡ some id) ↔ IsWrite id (obj fs))
  unfolding written_id get
  written_id-IsWrite fs =
      let kind = get_field (codes "kind") fs in
      let found = get_field (codes "memory_id") fs in
      elim (Bool-cases (is_text kind (codes "write"))) [
        | inl write ↦ (
          cast_or_none found,
          rw write refl,
          λ id. (
            λ h.
                let (v, named, truthy, reads) = (cast_or_none_iff found id).0 h in
                record {
                  kind = (is_text_iff kind (codes "write")).0 write;
                  memory_id = v;
                  found = named;
                  truthy = truthy;
                  reads = reads;
                },
            λ w. (cast_or_none_iff found id).1 (w.memory_id, w.found, w.truthy, w.reads),
          ),
        )
        | inr other ↦ (
          none,
          rw other refl,
          λ id. (
            λ h. cc,
            λ w.
                let write : is_text kind (codes "write") ≡ true =
                  (is_text_iff kind (codes "write")).1 w.kind in
                cc,
          ),
        )
      ]

  -- Every payload is an object.
  abbrev pub AreObjects : List (Row × Json) → Type 0
  AreObjects [] = Unit {0}
  AreObjects ((row, payload) ∷ rest) = ((fs : Fields) × (payload ≡ obj fs)) × AreObjects rest

  In-collect_ids :
      (payloads : List (Row × Json))
      → AreObjects payloads
      → (ids : List Text) × (collect_ids payloads ≡ ok ids)
        × ((id : Text) → In id ids ↔ IsWritten id payloads)
  unfolding collect_ids
  In-collect_ids [] h = ([], refl, λ id. unfold contains in (λ i. cc, λ e. absurd e))
  In-collect_ids ((row, payload) ∷ rest) ((fs, object), objects) =
      let (o, run, exact) = written_id-IsWrite fs in
      let (ids, later, others) = In-collect_ids rest objects in
      (
        add_id o ids,
        rw object (rw run (rw later refl)),
        λ id.
            let both = In-add_id o ids id (others id) in
            let write = subst (λ p. (o ≡ some id) ↔ IsWrite id p) (sym object) (exact id) in
            (
              λ i. elim (both.0 i) [ inl e ↦ inl (write.0 e) | inr r ↦ inr r ],
              λ e. both.1 (elim e [ inl w ↦ inl (write.1 w) | inr r ↦ inr r ]),
            ),
      )

  In-orphans_of :
      (known ids : List Text) (id : Text)
      → In id (orphans_of known ids) ↔ (In id ids × (contains known id ≡ false))
  In-orphans_of known [] id = unfold contains in (λ h. cc, λ h. cc (h.0))
  In-orphans_of known (other ∷ ids) id = elim (Bool-cases (contains known other)) [
    | inl old ↦
        let skipped : other ≡ id → contains known id ≡ true =
          λ e. subst (λ k. contains known k ≡ true) e old in
        rw old (ground (arith, In-orphans_of known ids id, In-cons id other ids, skipped))
    | inr new ↦
        let fresh : other ≡ id → contains known id ≡ false =
          λ e. subst (λ k. contains known k ≡ false) e new in
        rw new (
          ground (
            arith,
            In-orphans_of known ids id,
            In-cons id other ids,
            In-cons id other (orphans_of known ids),
            fresh,
          ))
  ]

  -- If the payloads of all rows can be read and are objects, `reconcile` returns exactly those of
  -- the backend's ids for which no row is a write of this memory id: no payload has the kind "write"
  -- and a memory id that is true and that `str` turns into this id.
  pub reconcile-In :
      (json : Orjson) (s : LedgerStore) (backend_ids : List Text) (payloads : List (Row × Json))
      → iter_payloads json s ≡ ok payloads
      → AreObjects payloads
      → (found : List Text) × (reconcile json s backend_ids ≡ ok found)
        × ((id : Text) → In id found ↔ (In id backend_ids × ¬ IsWritten id payloads))
  unfolding reconcile ledger_memory_ids
  reconcile-In json s backend_ids payloads read objects =
      let (ids, collected, known) = In-collect_ids payloads objects in
      (
        orphans_of ids backend_ids,
        rw read (rw collected refl),
        λ id.
            let parts = In-orphans_of ids backend_ids id in
            (
              λ i. let (a, b) = parts.0 i in (a, λ w. cc (b, (known id).1 w)),
              λ h. parts.1 (h.0, not-true _ (λ i. h.1 ((known id).0 i))),
            ),
      )
