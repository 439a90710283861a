-- ===== src/Query/Candidates.antt =====
-- The loop of `trace`: that it collects the writes among the ancestors, read from their payloads.
use memory_blackbox.Prelude.{
  ◌-◌, ◌≡◌, ◌↔◌, inl, inr, refl, sym, ap, ◌∙◌, true, List, [], ◌∷◌, ◌++◌, map, Option, none, some,
  arith, Text, codes, In, In-cons, In-append, not-In-nil, map-append, length, Bool-cases, ok,
  ok-injective, ◌>>=◌, >>=-eq-ok, subst, All, All-append, All-append,
}
use memory_blackbox.Model.Json.{
  Json, Orjson, Fields, null, bool, int, float, str, arr, obj, end, field, get_field,
}
use memory_blackbox.Model.Values.{get_member}
use memory_blackbox.Ledger.Store.{LedgerStore, payload}
use memory_blackbox.Dag.Closure.{descendants}
use memory_blackbox.Query.BlastRadius.{is_text, is_text_iff}
use memory_blackbox.Query.Trace.{
  TraceRoot, object_or_empty, value_or_default, root_for, root_of_kind, write_root, collect_roots,
}

abbrev pub ids_of : List TraceRoot → List Text
ids_of = map (λ (r : TraceRoot). r.record_id)

object_or_empty-obj : (src : Fields) → object_or_empty (some (obj src)) ≡ obj src
object_or_empty-obj end = refl
object_or_empty-obj (field k v fs) = refl

module _ (json : Orjson) (s : LedgerStore) where
  -- The id of a row whose payload is a write.
  abbrev pub IsWriteRow : Text → Type 0
  IsWriteRow id =
      (fs : Fields) × (payload json s id ≡ ok (some (obj fs)))
      × (get_field (codes "kind") fs ≡ some (str (codes "write")))

  -- The level of trust, the time and the weight of a root are those of its row.
  pub record IsRootOf (r : TraceRoot) : Type 0 where
    pub fields : Fields
    pub row : payload json s r.record_id ≡ ok (some (obj fields))
    pub trusts :
        (src : Fields) (level : Json)
        → get_field (codes "source") fields ≡ some (obj src)
        → get_field (codes "trust_level") src ≡ some level
        → r.trust_level ≡ level
    pub defaults :
        (src : Fields)
        → get_field (codes "source") fields ≡ some (obj src)
        → get_field (codes "trust_level") src ≡ none
        → r.trust_level ≡ str (codes "untrusted")
    pub sourceless :
        get_field (codes "source") fields ≡ none → r.trust_level ≡ str (codes "untrusted")
    pub dated : (at : Json) → get_field (codes "created_at") fields ≡ some at → r.created_at ≡ at
    pub weighed : r.centrality ≡ length (descendants s.db (r.record_id ∷ []) none) - 1

  root_for-IsRootOf :
      (id : Text) (fs : Fields) (r : TraceRoot)
      → payload json s id ≡ ok (some (obj fs))
      → root_for s.db id (obj fs) ≡ ok r
      → IsRootOf r × (r.record_id ≡ id)
  unfolding root_for
  root_for-IsRootOf id fs r row h =
      let found = get_field (codes "source") fs in
      let source = object_or_empty found in
      let (source_id, _, h2) = >>=-eq-ok (get_member (codes "source_id") source) _ h in
      let (source_type, _, h3) = >>=-eq-ok (get_member (codes "source_type") source) _ h2 in
      let (level, trusted, h4) = >>=-eq-ok (get_member (codes "trust_level") source) _ h3 in
      let looked : (src : Fields)
          → found ≡ some (obj src)
          → level ≡ get_field (codes "trust_level") src =
        λ src named.
          let same : get_member (codes "trust_level") (obj src) ≡ ok level =
            ap (get_member (codes "trust_level"))
              (sym (ap object_or_empty named ∙ object_or_empty-obj src))
            ∙ trusted in
          sym (ok-injective same) in
      subst (λ (q : TraceRoot). IsRootOf q × (q.record_id ≡ id)) (ok-injective h4)
        (
          record {
            fields = fs;
            row = row;
            trusts = λ src value named given.
                ap (value_or_default (str (codes "untrusted"))) (looked src named ∙ given);
            defaults = λ src named missing.
                ap (value_or_default (str (codes "untrusted"))) (looked src named ∙ missing);
            sourceless = λ missing.
                let no_level : get_field (codes "trust_level") end ≡ none =
                  unfold get_field in refl in
                let empty : get_member (codes "trust_level") (obj end) ≡ ok level =
                  ap (λ (o : Option Json). get_member (codes "trust_level") (object_or_empty o))
                    (sym missing)
                  ∙ trusted in
                ap (value_or_default (str (codes "untrusted")))
                  (sym (ok-injective empty) ∙ no_level);
            dated = λ at given. ap (value_or_default (str [])) given;
            weighed = refl;
          },
          refl,
        )

  abbrev Candidates : Text → List TraceRoot → Type 0
  Candidates id rs = All IsRootOf rs × ((v : Text) → In v (ids_of rs) ↔ ((v ≡ id) × IsWriteRow v))

  root_of_kind-Candidates :
      (id : Text) (fs : Fields) (rs : List TraceRoot)
      → payload json s id ≡ ok (some (obj fs))
      → root_of_kind s.db id (obj fs) (get_field (codes "kind") fs) ≡ ok rs
      → Candidates id rs
  root_of_kind-Candidates id fs rs row h =
      let kind = get_field (codes "kind") fs in
      elim (Bool-cases (is_text kind (codes "write"))) [
        | inl write ↦
            let run : (root_for s.db id (obj fs) >>= λ r. ok (r ∷ [])) ≡ ok rs =
              ground (arith, write) in
            let (r, read, same) = >>=-eq-ok (root_for s.db id (obj fs)) _ run in
            let (is_root, named) = root_for-IsRootOf id fs r row read in
            subst (Candidates id) (ok-injective same) (
              (is_root, tt),
              λ v. (
                λ i.
                    let e : v ≡ id =
                      ground (arith, In-cons v r.record_id [], not-In-nil v, named) in
                    (
                      e,
                      subst IsWriteRow (sym e)
                          (fs, row, (is_text_iff kind (codes "write")).0 write),
                    ),
                λ w. (In-cons v r.record_id []).1 (inl (named ∙ sym (w.0))),
              ),
            )
        | inr other ↦
            let empty : [] ≡ rs = ground (arith, other) in
            subst (Candidates id) empty (
              tt,
              λ v. (
                λ i. absurd (not-In-nil v i),
                λ w.
                    let (named, (gs, other_row, written)) = w in
                    let same : fs ≡ gs =
                      obj_row (sym row ∙ ap (payload json s) (sym named) ∙ other_row) in
                    let write : is_text kind (codes "write") ≡ true =
                      (is_text_iff kind (codes "write")).1
                        (ap (get_field (codes "kind")) same ∙ written) in
                    cc,
              ),
            )
      ]
    where
      obj_row : {a b : Fields} → ok (some (obj a)) ≡ ok (some (obj b)) → a ≡ b
      obj_row e = cc

  write_root-Candidates :
      (id : Text) (value : Option Json) (rs : List TraceRoot)
      → payload json s id ≡ ok value
      → write_root s.db id value ≡ ok rs
      → Candidates id rs
  unfolding write_root
  write_root-Candidates id none rs row h = subst (Candidates id) (ok-injective h) (
    tt,
    λ v. (
      λ i. absurd (not-In-nil v i),
      λ w.
          let (named, (gs, other_row, written)) = w in
          cc (row, ap (payload json s) (sym named) ∙ other_row),
    ),
  )
  write_root-Candidates id (some (obj fs)) rs row h = root_of_kind-Candidates id fs rs row h
  write_root-Candidates id (some null) rs row h = cc
  write_root-Candidates id (some (bool b)) rs row h = cc
  write_root-Candidates id (some (int n)) rs row h = cc
  write_root-Candidates id (some (float bits)) rs row h = cc
  write_root-Candidates id (some (str t)) rs row h = cc
  write_root-Candidates id (some (arr vs)) rs row h = cc

  pub collect_roots_lem :
      (ids : List Text) (roots : List TraceRoot)
      → collect_roots json s ids ≡ ok roots
      → All IsRootOf roots × ((v : Text) → In v (ids_of roots) ↔ (In v ids × IsWriteRow v))
  unfolding collect_roots
  collect_roots_lem [] roots h =
      subst
        (λ (l : List TraceRoot).
          All IsRootOf l × ((v : Text) → In v (ids_of l) ↔ (In v [] × IsWriteRow v)))
        (ok-injective h) (tt, λ v. (λ i. absurd (not-In-nil v i), λ w. absurd (not-In-nil v w.0)))
  collect_roots_lem (id ∷ ids) roots h =
      let (value, row, h2) = >>=-eq-ok (payload json s id) _ h in
      let (rs, found, h3) = >>=-eq-ok (write_root s.db id value) _ h2 in
      let (rest, later, h4) = >>=-eq-ok (collect_roots json s ids) _ h3 in
      let (here, here_ids) = write_root-Candidates id value rs row found in
      let (others, other_ids) = collect_roots_lem ids rest later in
      subst
        (λ (l : List TraceRoot).
          All IsRootOf l × ((v : Text) → In v (ids_of l) ↔ (In v (id ∷ ids) × IsWriteRow v)))
        (ok-injective h4)
        (
          All-append IsRootOf rs rest here others,
          λ v. joined v id ids rs rest (here_ids v) (other_ids v),
        )
    where
      joined :
          {W : Type 0} (v id : Text) (ids : List Text) (rs rest : List TraceRoot)
          → In v (ids_of rs) ↔ ((v ≡ id) × W)
          → In v (ids_of rest) ↔ (In v ids × W)
          → In v (ids_of (rs ++ rest)) ↔ (In v (id ∷ ids) × W)
      joined v id ids rs rest a b =
          let split = In-append v (ids_of rs) (ids_of rest) in
          let first = In-cons v id ids in
          rw (map-append (λ (r : TraceRoot). r.record_id) rs rest) (
            λ i. elim (split.0 i) [
              | inl x ↦ let (e, w) = a.0 x in (first.1 (inl (sym e)), w)
              | inr x ↦ let (j, w) = b.0 x in (first.1 (inr j), w)
            ],
            λ p.
                let (i, w) = p in
                elim (first.0 i) [
                  | inl e ↦ split.1 (inl (a.1 (sym e, w)))
                  | inr j ↦ split.1 (inr (b.1 (j, w)))
                ],
          )
