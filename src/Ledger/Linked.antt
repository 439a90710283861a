-- ===== src/Ledger/Linked.antt =====
-- What `verify_chain` accepts, stated without its loop, and what a divergence that it reports says.
use memory_blackbox.Prelude.{
  ℕ, ◌+◌, ◌≡◌, ◌≢◌, ◌↔◌, inl, inr, ap, ◌∙◌, true, false, List, [], ◌∷◌, Option, none, some, arith,
  Text, Bytes, eq_iff, opt_eq_iff, length, Option-cases,
}
use memory_blackbox.Crypto.{Primitives}
use memory_blackbox.Crypto.Hashing.{b3, b3_raw}
use memory_blackbox.Crypto.Signing.{verify}
use memory_blackbox.Storage.{Row, Db}
use memory_blackbox.Ledger.Chain.{
  DivergenceKind, edit, gap, forgery, ChainReport, link_input, check_row, check_rows, verify_chain,
}

abbrev pub link_of : Row → Bytes
link_of row = link_input row.payload_json row.prev_hash

module _ (c : Primitives) (public_key : Bytes) where
  -- A row behind the entry hash `prev`: hashed, linked and signed.
  pub record IsEntry (prev : Option Text) (row : Row) : Type 0 where
    pub hashed : b3 c (link_of row) ≡ row.entry_hash
    pub linked : row.prev_hash ≡ prev
    pub signed : verify c (b3_raw c (link_of row)) row.signature public_key ≡ true

  -- A chain of such rows.
  abbrev pub IsLinked : Option Text → List Row → Type 0
  IsLinked prev [] = Unit
  IsLinked prev (row ∷ rows) = IsEntry prev row × IsLinked (some row.entry_hash) rows

  -- What is wrong with a row, by the kind of its divergence.
  abbrev pub Fault : DivergenceKind → Option Text → Row → Type 0
  Fault edit prev row = b3 c (link_of row) ≢ row.entry_hash
  Fault gap prev row = (b3 c (link_of row) ≡ row.entry_hash) × (row.prev_hash ≢ prev)
  Fault forgery prev row =
      (b3 c (link_of row) ≡ row.entry_hash)
      × (row.prev_hash ≡ prev)
      × (verify c (b3_raw c (link_of row)) row.signature public_key ≡ false)

  pub check_row-none :
      (prev : Option Text) (row : Row) → (check_row c public_key prev row ≡ none) ↔ IsEntry prev row
  unfolding check_row
  check_row-none prev row = (
    λ h. ground (arith, eq_iff (b3 c (link_of row)) row.entry_hash, opt_eq_iff row.prev_hash prev),
    λ e. ground (arith, eq_iff (b3 c (link_of row)) row.entry_hash, opt_eq_iff row.prev_hash prev),
  )

  pub check_row-some :
      (prev : Option Text) (row : Row) (kind : DivergenceKind)
      → check_row c public_key prev row ≡ some kind
      → Fault kind prev row
  unfolding check_row
  check_row-some prev row edit h =
      ground (arith, eq_iff (b3 c (link_of row)) row.entry_hash, opt_eq_iff row.prev_hash prev)
  check_row-some prev row gap h =
      ground (arith, eq_iff (b3 c (link_of row)) row.entry_hash, opt_eq_iff row.prev_hash prev)
  check_row-some prev row forgery h =
      ground (arith, eq_iff (b3 c (link_of row)) row.entry_hash, opt_eq_iff row.prev_hash prev)

  pub check_rows_step :
      (prev : Option Text) (n : ℕ) (row : Row) (rows : List Row)
      → check_row c public_key prev row ≡ none
      → check_rows c public_key prev n (row ∷ rows)
        ≡ check_rows c public_key (some row.entry_hash) (n + 1) rows
  unfolding check_rows
  check_rows_step prev n row rows h = rw (h, check_rows)

  pub check_rows_stop :
      (prev : Option Text) (n : ℕ) (row : Row) (rows : List Row) (kind : DivergenceKind)
      → check_row c public_key prev row ≡ some kind
      → check_rows c public_key prev n (row ∷ rows) ≡ record {
        is_ok = false;
        rows_checked = n;
        divergence = some (record { seq = row.seq; record_id = row.record_id; kind = kind });
      }
  unfolding check_rows
  check_rows_stop prev n row rows kind h = rw (h, check_rows)

  pub check_rows-IsLinked :
      (prev : Option Text) (n : ℕ) (rows : List Row)
      → IsLinked prev rows
      → check_rows c public_key prev n rows
        ≡ record { is_ok = true; rows_checked = n + length rows; divergence = none }
  check_rows-IsLinked prev n [] h = unfold check_rows in ground arith
  check_rows-IsLinked prev n (row ∷ rows) h =
      check_rows_step prev n row rows ((check_row-none prev row).1 h.0)
      ∙ check_rows-IsLinked (some row.entry_hash) (n + 1) rows h.1
      ∙ ground arith

  pub IsLinked-check_rows :
      (prev : Option Text) (n : ℕ) (rows : List Row)
      → (check_rows c public_key prev n rows).is_ok ≡ true
      → IsLinked prev rows
  IsLinked-check_rows prev n [] h = tt
  IsLinked-check_rows prev n (row ∷ rows) h =
      elim (Option-cases (check_row c public_key prev row)) [
        | inl fine ↦ (
          (check_row-none prev row).0 fine,
          IsLinked-check_rows (some row.entry_hash) (n + 1) rows
              (rw (check_rows_step prev n row rows fine) at h),
        )
        | inr (kind, e) ↦ absurd (ground (arith, check_rows_stop prev n row rows kind e))
      ]

  -- `verify_chain` accepts a database exactly when each row's entry hash is the digest of its
  -- payload and previous hash, each previous hash is the entry hash of the row before (none at the
  -- first row), and each signature verifies.
  pub verify_chain_iff :
      (db : Db) → ((verify_chain c public_key db).is_ok ≡ true) ↔ IsLinked none db.ledger
  unfolding verify_chain
  verify_chain_iff db = (
    IsLinked-check_rows none 0 db.ledger,
    λ h. ap (λ (r : ChainReport). r.is_ok) (check_rows-IsLinked none 0 db.ledger h),
  )
