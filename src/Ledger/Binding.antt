-- ===== src/Ledger/Binding.antt =====
-- What the newest entry hash commits to, and what it leaves open.
use memory_blackbox.Prelude.{
  ◌≡◌, ◌⊎◌, inl, inr, refl, sym, ap, ◌∙◌, true, List, [], ◌∷◌, ◌++◌, map, Option, none, some, arith,
  Text, Bytes, length, last?, append-nil, append-cancel_right, subst, ap₂,
}
use memory_blackbox.Codec.Utf8.{utf8, utf8-append, utf8-injective, utf8-ascii}
use memory_blackbox.Crypto.{Primitives, IsSound, Collision}
use memory_blackbox.Crypto.Hashing.{b3, b3_raw, b3_binds, length-b3, b3_ascii}
use memory_blackbox.Crypto.Signing.{verify}
use memory_blackbox.Storage.{Row, Db}
use memory_blackbox.Ledger.Store.{entry_hash_of}
use memory_blackbox.Ledger.Chain.{prev_bytes, link_input, verify_chain}
use memory_blackbox.Ledger.Linked.{link_of, IsEntry, IsLinked, verify_chain_iff}

-- What the entry hash of a row covers, beside the hash itself.
pub record Covered : Type 0 where
  pub payload_json : Text
  pub prev_hash : Option Text
  pub entry_hash : Text

abbrev pub covered : Row → Covered
covered row = record {
  payload_json = row.payload_json;
  prev_hash = row.prev_hash;
  entry_hash = row.entry_hash;
}

-- Two previous hashes of one length, or none twice.
abbrev Alike : Option Text → Option Text → Type 0
Alike none none = Unit
Alike none (some k) = ⊥
Alike (some h) none = ⊥
Alike (some h) (some k) = length (utf8 h) ≡ length (utf8 k)

Alike-length : (p q : Option Text) → Alike p q → length (prev_bytes p) ≡ length (prev_bytes q)
Alike-length none none h = refl
Alike-length none (some k) h = absurd h
Alike-length (some h) none e = absurd e
Alike-length (some h) (some k) e = e

Alike-eq : (p q : Option Text) → Alike p q → prev_bytes p ≡ prev_bytes q → p ≡ q
Alike-eq none none h e = refl
Alike-eq none (some k) h e = absurd h
Alike-eq (some h) none a e = absurd a
Alike-eq (some h) (some k) a e = ap {B = Option Text} some (utf8-injective h k e)

module _ (c : Primitives) (sound : IsSound c) (public_key : Bytes) where
  length-entry :
      (prev : Option Text) (row : Row)
      → IsEntry c public_key prev row
      → length (utf8 row.entry_hash) ≡ 71
  length-entry prev row e =
      ap (λ h. length (utf8 h)) (sym e.hashed)
      ∙ ap length (utf8-ascii (b3 c (link_of row)) (b3_ascii c sound (link_of row)))
      ∙ length-b3 c sound (link_of row)

  -- Two entries with one hash, behind hashes of one length, have one payload and one predecessor.
  entry_binds :
      (p q : Option Text) (r s : Row)
      → IsEntry c public_key p r
      → IsEntry c public_key q s
      → Alike p q
      → r.entry_hash ≡ s.entry_hash
      → ((covered r ≡ covered s) × (p ≡ q)) ⊎ Collision c
  unfolding link_input
  entry_binds p q r s hr hs n e =
      elim (b3_binds c sound (link_of r) (link_of s) (hr.hashed ∙ e ∙ sym hs.hashed)) [
        | inr bad ↦ inr bad
        | inl same ↦
            let links : utf8 r.payload_json ++ prev_bytes p ≡ utf8 s.payload_json ++ prev_bytes q =
              cc (hr.linked, hs.linked, same) in
            let (a, b) =
              append-cancel_right (utf8 r.payload_json) (prev_bytes p) (utf8 s.payload_json)
                (prev_bytes q) (Alike-length p q n) links in
            let payload = utf8-injective r.payload_json s.payload_json a in
            let prev = Alike-eq p q n b in
            let fields : covered r ≡ covered s = cc (hr.linked, hs.linked, payload, prev, e) in
            inl (fields, prev)
      ]

  chain_binds :
      (p q : Option Text) (r s : Row) (rows others : List Row)
      → IsLinked c public_key p (r ∷ rows)
      → IsLinked c public_key q (s ∷ others)
      → Alike p q
      → length rows ≡ length others
      → entry_hash_of (last? (r ∷ rows)) ≡ entry_hash_of (last? (s ∷ others))
      → ((map covered (r ∷ rows) ≡ map covered (s ∷ others)) × (p ≡ q)) ⊎ Collision c
  chain_binds p q r s [] [] hr hs a n e = elim (entry_binds p q r s hr.0 hs.0 a (cc)) [
    | inl (same, prev) ↦ inl (ap (λ x. x ∷ []) same, prev)
    | inr bad ↦ inr bad
  ]
  chain_binds p q r s [] (s' ∷ others) hr hs a n e = absurd (omega arith)
  chain_binds p q r s (r' ∷ rows) [] hr hs a n e = absurd (omega arith)
  chain_binds p q r s (r' ∷ rows) (s' ∷ others) hr hs a n e = after (
      chain_binds (some r.entry_hash) (some s.entry_hash) r' s' rows others hr.1 hs.1
        (length-entry p r hr.0 ∙ sym (length-entry q s hs.0)) (omega arith) e)
    where
      after :
          ((map covered (r' ∷ rows) ≡ map covered (s' ∷ others))
              × (some r.entry_hash ≡ some s.entry_hash))
            ⊎ Collision c
          → ((map covered (r ∷ r' ∷ rows) ≡ map covered (s ∷ s' ∷ others)) × (p ≡ q)) ⊎ Collision c
      after (inr bad) = inr bad
      after (inl (rest, hash)) = elim (entry_binds p q r s hr.0 hs.0 a (cc)) [
        | inl (same, prev) ↦ inl (ap₂ ◌∷◌ same rest, prev)
        | inr bad ↦ inr bad
      ]

  -- Under sound primitives, two databases that pass `verify_chain`, with equally many rows and one
  -- newest entry hash, agree on payload, previous hash and entry hash of every row, or they exhibit
  -- a collision of BLAKE3.
  pub verify_chain_binds :
      (a b : Db)
      → (verify_chain c public_key a).is_ok ≡ true
      → (verify_chain c public_key b).is_ok ≡ true
      → length a.ledger ≡ length b.ledger
      → entry_hash_of (last? a.ledger) ≡ entry_hash_of (last? b.ledger)
      → (map covered a.ledger ≡ map covered b.ledger) ⊎ Collision c
  verify_chain_binds a b ha hb n e =
      go a.ledger b.ledger ((verify_chain_iff c public_key a).0 ha)
        ((verify_chain_iff c public_key b).0 hb) n e
    where
      go :
          (rows others : List Row)
          → IsLinked c public_key none rows
          → IsLinked c public_key none others
          → length rows ≡ length others
          → entry_hash_of (last? rows) ≡ entry_hash_of (last? others)
          → (map covered rows ≡ map covered others) ⊎ Collision c
      go [] [] hr hs n e = inl refl
      go [] (s ∷ others) hr hs n e = absurd (omega arith)
      go (r ∷ rows) [] hr hs n e = absurd (omega arith)
      go (r ∷ rows) (s ∷ others) hr hs n e =
          elim (chain_binds none none r s rows others hr hs tt (omega arith) e) [
            | inl (same, _) ↦ inl same
            | inr bad ↦ inr bad
          ]

-- The row `row` with its previous hash moved to the end of its payload.
abbrev pub behead : Row → Text → Row
behead row h = record row { payload_json = row.payload_json ++ h; prev_hash = none }

module _ (c : Primitives) (public_key : Bytes) where
  link-behead :
      (row : Row) (h : Text) → row.prev_hash ≡ some h → link_of (behead row h) ≡ link_of row
  unfolding link_input
  link-behead row h e =
      append-nil (utf8 (row.payload_json ++ h))
      ∙ utf8-append row.payload_json h
      ∙ ap (λ p. utf8 row.payload_json ++ prev_bytes p) (sym e)

  IsLinked-suffix :
      (p : Option Text) (before : List Row) (row : Row) (after : List Row)
      → IsLinked c public_key p (before ++ row ∷ after)
      → (q : Option Text) × IsEntry c public_key q row
        × IsLinked c public_key (some row.entry_hash) after
  IsLinked-suffix p [] row after h = (p, h.0, h.1)
  IsLinked-suffix p (b ∷ before) row after h =
      IsLinked-suffix (some b.entry_hash) before row after h.1

  -- The payload and the previous hash are hashed as one byte string with nothing between them. So
  -- when all rows before a row are removed, and the previous hash of that row is moved to the end
  -- of its payload, `verify_chain` accepts the shortened ledger.
  pub verify_chain-behead :
      (db : Db) (before : List Row) (row : Row) (after : List Row) (h : Text)
      → db.ledger ≡ before ++ row ∷ after
      → row.prev_hash ≡ some h
      → (verify_chain c public_key db).is_ok ≡ true
      → (verify_chain c public_key (record db { ledger = behead row h ∷ after })).is_ok ≡ true
  verify_chain-behead db before row after h parts e good =
      let chain = (verify_chain_iff c public_key db).0 good in
      let (q, entry, rest) =
        IsLinked-suffix none before row after (subst (IsLinked c public_key none) parts chain) in
      let same = link-behead row h e in
      (verify_chain_iff c public_key (record db { ledger = behead row h ∷ after })).1 (
        record {
          hashed = ap (b3 c) same ∙ entry.hashed;
          linked = refl;
          signed = ap (λ l. verify c (b3_raw c l) row.signature public_key) same ∙ entry.signed;
        },
        rest,
      )
