-- ===== src/Cli/Clock.antt =====
-- The clock of a witness file is read by `publish` alone.
use memory_blackbox.Prelude.{
  ◌≡◌, refl, ap, Bool, true, false, List, [], ◌∷◌, Option, none, some, Text, Result, ok, err, ◌>>=◌,
}
use memory_blackbox.Crypto.{Primitives}
use memory_blackbox.Model.Json.{Orjson}
use memory_blackbox.Model.Values.{Casts}
use memory_blackbox.Ledger.Store.{LedgerStore}
use memory_blackbox.Anchor.Statement.{Witness, AnchorReceipt, ledger_id}
use memory_blackbox.Anchor.Verify.{
  verify_anchors, check_receipts, check_witnesses, witnessed_report, check_log, verify_identity,
}
use memory_blackbox.Anchor.FileWitness.{file_witness}

>>=-cong :
    {X Y : Type 0} (m : Result X) (f g : X → Result Y)
    → ((x : X) → f x ≡ g x)
    → (m >>= f) ≡ (m >>= g)
>>=-cong (ok x) f g h = h x
>>=-cong (err why) f g h = refl

module _ (c : Primitives) (json : Orjson) (casts : Casts) (path now later : Text) where
  check_receipts-now :
      (log : List Text) (receipts : List AnchorReceipt)
      → check_receipts c json casts (file_witness c json casts path now) log receipts
        ≡ check_receipts c json casts (file_witness c json casts path later) log receipts
  unfolding check_receipts
  check_receipts-now log [] = refl
  check_receipts-now log (r ∷ receipts) = rw (check_receipts-now log receipts) refl

  check_log-now :
      (s : LedgerStore) (log : List Text) (require : Bool) (identity : Text) (ws : List Witness)
      → check_log c json casts (file_witness c json casts path now) s log require identity ws
        ≡ check_log c json casts (file_witness c json casts path later) s log require identity ws
  unfolding check_witnesses
  check_log-now s log true identity [] = refl
  check_log-now s log false identity [] = refl
  check_log-now s log require identity (w ∷ ws) = >>=-cong _ _ _ (λ receipts.
      ap
        (λ m. m >>= λ faults. ok (
          witnessed_report c json casts (file_witness c json casts path now) s identity (w ∷ ws)
            faults))
        (check_receipts-now log receipts))

  pub verify_anchors-now :
      (s : LedgerStore) (log : List Text) (require : Bool)
      → verify_anchors c json casts (file_witness c json casts path now) s log require
        ≡ verify_anchors c json casts (file_witness c json casts path later) s log require
  unfolding verify_anchors
  verify_anchors-now s log require = of_identity (ledger_id c s.db)
    where
      of_identity :
          (identity : Option Text)
          → verify_identity c json casts (file_witness c json casts path now) s log require identity
            ≡ verify_identity c json casts
                (file_witness c json casts path later)
                s
                log
                require
                identity
      of_identity none = refl
      of_identity (some identity) = >>=-cong _ _ _ (check_log-now s log require identity)
