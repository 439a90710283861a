-- ===== src/Ledger/Divergence.antt =====
-- The divergence that `verify_chain` reports is the first row that fails, and its kind is right.
use memory_blackbox.Prelude.{
  ℕ, ◌+◌, ◌≡◌, inl, inr, refl, ap, false, List, [], ◌∷◌, ◌++◌, Option, none, some, arith, Text,
  Bytes, length, Option-cases,
}
use memory_blackbox.Crypto.{Primitives}
use memory_blackbox.Storage.{Row, Db}
use memory_blackbox.Ledger.Chain.{Divergence, ChainReport, check_row, check_rows, verify_chain}
use memory_blackbox.Ledger.Linked.{
  IsLinked, Fault, check_row-none, check_row-some, check_rows_step, check_rows_stop,
}

-- The entry hash of the last of some rows that follow `prev`.
abbrev pub hash_after : Option Text → List Row → Option Text
hash_after prev [] = prev
hash_after prev (row ∷ rows) = hash_after (some row.entry_hash) rows

module _ (c : Primitives) (public_key : Bytes) where
  -- The first row that fails, with the good chain before it.
  pub record IsFirstFault (prev : Option Text) (n : ℕ) (rows : List Row) (r : ChainReport)
      (d : Divergence) : Type 0 where
    pub before : List Row
    pub row : Row
    pub after : List Row
    pub parts : rows ≡ before ++ row ∷ after
    pub good : IsLinked c public_key prev before
    pub fault : Fault c public_key d.kind (hash_after prev before) row
    pub same_seq : d.seq ≡ row.seq
    pub same_id : d.record_id ≡ row.record_id
    pub counted : r.rows_checked ≡ n + length before
    pub refused : r.is_ok ≡ false

  first_fault :
      (prev : Option Text) (n : ℕ) (rows : List Row) (d : Divergence)
      → (check_rows c public_key prev n rows).divergence ≡ some d
      → IsFirstFault prev n rows (check_rows c public_key prev n rows) d
  first_fault prev n [] d h = unfold check_rows in cc
  first_fault prev n (row ∷ rows) d h = elim (Option-cases (check_row c public_key prev row)) [
    | inl fine ↦
        let step = check_rows_step c public_key prev n row rows fine in
        let later = first_fault (some row.entry_hash) (n + 1) rows d (rw step at h) in
        rw step (record {
          before = row ∷ later.before;
          row = later.row;
          after = later.after;
          parts = ap (◌∷◌ row) later.parts;
          good = ((check_row-none c public_key prev row).0 fine, later.good);
          fault = later.fault;
          same_seq = later.same_seq;
          same_id = later.same_id;
          counted = omega (arith, later.counted);
          refused = later.refused;
        })
    | inr (kind, e) ↦
        let stop = check_rows_stop c public_key prev n row rows kind e in
        let same : d ≡ record { seq = row.seq; record_id = row.record_id; kind = kind } =
          ground arith in
        rw (stop, same)
          (record {
            before = [];
            row = row;
            after = rows;
            parts = refl;
            good = tt;
            fault = check_row-some c public_key prev row kind e;
            same_seq = refl;
            same_id = refl;
            counted = omega arith;
            refused = refl;
          })
  ]

  -- If `verify_chain` reports a divergence, the rows split at a row with the reported `seq` and
  -- record id: the rows before it form a good chain and are as many as `rows_checked` says, and the
  -- row has the fault that the reported kind names.
  pub verify_chain-IsFirstFault :
      (db : Db) (d : Divergence)
      → (verify_chain c public_key db).divergence ≡ some d
      → IsFirstFault none 0 db.ledger (verify_chain c public_key db) d
  unfolding verify_chain
  verify_chain-IsFirstFault db d h = first_fault none 0 db.ledger d h
