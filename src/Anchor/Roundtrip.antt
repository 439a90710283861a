-- ===== src/Anchor/Roundtrip.antt =====
-- A published statement is read back as it was.
use memory_blackbox.Prelude.{◌≡◌, refl, ap, ◌∙◌, [], some, Text, codes, ok, ◌==◌, contains, eq_refl}
use memory_blackbox.Model.Json.{
  Json, Fields, Orjson, IsRoundTrip, str, int, obj, get_field, sort_keys, sort_fields,
  get_field-sort, sort_option,
}
use memory_blackbox.Model.Canonical.{prune, canonical_text}
use memory_blackbox.Model.Values.{Casts, AreCasts}
use memory_blackbox.Anchor.Statement.{
  CheckpointStatement, anchor_statement_type, to_fields, statement_text, statement_of,
  from_canonical,
}

-- A statement prunes to itself, since nothing is excluded.
pub prune-statement :
    (st : CheckpointStatement) → prune [] (obj (to_fields st)) ≡ obj (to_fields st)
unfolding prune to_fields contains
prune-statement st = refl

module _ (st : CheckpointStatement) where
  -- The fields hold what the fields of the statement hold.
  abbrev pub Agrees : Fields → Type 0
  Agrees fs =
      (key : Text) (v : Json)
      → get_field key (to_fields st) ≡ some v
      → sort_keys v ≡ v
      → get_field key fs ≡ some v

  pub Agrees-sort : (fs : Fields) → Agrees fs → Agrees (sort_fields fs)
  Agrees-sort fs h key v found flat =
      get_field-sort key fs ∙ ap sort_option (h key v found flat) ∙ ap some flat

  pub Agrees-self : Agrees (to_fields st)
  Agrees-self key v found flat = found

  module _ (json : Orjson) (casts : Casts) (laws : AreCasts casts) where
    statement_of-fields :
        (fs : Fields)
        → get_field (codes "type") fs ≡ some (str anchor_statement_type)
        → get_field (codes "ledger_id") fs ≡ some (str st.ledger_id)
        → get_field (codes "signer_kid") fs ≡ some (str st.signer_kid)
        → get_field (codes "leaf_count") fs ≡ some (int st.leaf_count)
        → get_field (codes "root") fs ≡ some (str st.root)
        → get_field (codes "checkpoint_signature") fs ≡ some (str st.checkpoint_signature)
        → get_field (codes "created_at") fs ≡ some (str st.created_at)
        → statement_of json casts (some (obj fs)) ≡ ok st
    unfolding statement_of
    statement_of-fields fs t a b n r s d =
        rw (t, eq_refl anchor_statement_type, a, b, n, r, s, d)
          (rw
            (
              laws.str_str st.ledger_id,
              laws.str_str st.signer_kid,
              laws.int_int st.leaf_count,
              laws.str_str st.root,
              laws.str_str st.checkpoint_signature,
              laws.str_str st.created_at,
            )
            refl)

    pub statement_of-Agrees :
        (fs : Fields) → Agrees fs → statement_of json casts (some (obj fs)) ≡ ok st
    unfolding sort_keys get_field to_fields ◌==◌
    statement_of-Agrees fs h =
        statement_of-fields fs (h _ _ refl refl) (h _ _ refl refl) (h _ _ refl refl)
          (h _ _ refl refl) (h _ _ refl refl) (h _ _ refl refl) (h _ _ refl refl)

    -- If orjson reads back what it writes and `str` and `int` give back texts and numbers, then
    -- parsing the canonical text of a statement gives the statement.
    pub from_canonical-canonical :
        IsRoundTrip json → from_canonical json casts (statement_text json st) ≡ ok st
    unfolding from_canonical statement_text canonical_text
    from_canonical-canonical trip =
        ap (λ v. statement_of json casts (json.loads (json.dumps v))) (prune-statement st)
        ∙ ap (statement_of json casts) (trip.loads-dumps (obj (to_fields st)))
        ∙ (unfold sort_keys in
            statement_of-Agrees (sort_fields (to_fields st))
              (Agrees-sort (to_fields st) Agrees-self))

    -- So does parsing the text of its sorted fields.
    pub from_canonical-sort :
        IsRoundTrip json
        → from_canonical json casts (json.dumps (obj (sort_fields (to_fields st)))) ≡ ok st
    unfolding from_canonical sort_keys
    from_canonical-sort trip =
        ap (statement_of json casts) (trip.loads-dumps (obj (sort_fields (to_fields st))))
        ∙ statement_of-Agrees (sort_fields (sort_fields (to_fields st)))
            (Agrees-sort _ (Agrees-sort _ Agrees-self))
