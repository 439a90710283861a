-- ===== src/Anchor/Rollback.antt =====
-- Rollback, fork and erasure: what a passing `verify_anchors` keeps of the witnessed history, and
-- what it does not see.
use mathlib.Core.List.{Memᴰ}
use memory_blackbox.Prelude.{
  ◌≤◌, ◌≡◌, ◌⊎◌, inl, inr, refl, sym, ap, ◌∙◌, Bool, true, List, [], some, arith, Text, Bytes,
  length, take, All, ok, subst,
}
use memory_blackbox.Codec.Hex.{hex-injective}
use memory_blackbox.Crypto.{Primitives, IsSound, Collision}
use memory_blackbox.Merkle.{root_hex, compute_root}
use memory_blackbox.Merkle.Binding.{compute_root_binds}
use memory_blackbox.Ledger.Deletion.{compute_root_bytes}
use memory_blackbox.Model.Json.{Orjson}
use memory_blackbox.Ledger.Store.{LedgerStore, count}
use memory_blackbox.Ledger.Merkle.{current_leaves}
use memory_blackbox.Model.Values.{Casts}
use memory_blackbox.Anchor.Statement.{
  CheckpointStatement, Witness, AnchorReceipt, Anchor, ledger_id,
}
use memory_blackbox.Anchor.Store.{anchors}
use memory_blackbox.Anchor.Verify.{
  AnchorDivergence, AnchorReport, check_receipts, unidentified, verify_anchors,
}
use memory_blackbox.Anchor.Detection.{Matches, verify_anchors_iff}

All-Memᴰ : (Q : Witness → Type 0) {w : Witness} {ws : List Witness} → Memᴰ w ws → All Q ws → Q w
All-Memᴰ Q (Memᴰ.head e) h = subst Q (sym e) h.0
All-Memᴰ Q (Memᴰ.tail k) h = All-Memᴰ Q k h.1

root_hex-injective :
    (c : Primitives)
    → IsSound c
    → (xs ys : List Bytes) → root_hex c xs ≡ root_hex c ys
    → compute_root c xs ≡ compute_root c ys
unfolding root_hex
root_hex-injective c sound xs ys h =
    hex-injective (compute_root c xs) (compute_root c ys) (compute_root_bytes c sound xs)
      (compute_root_bytes c sound ys) (cc)

module _ {L : Type 0} (c : Primitives) (json : Orjson) (casts : Casts) (anchor : Anchor L) where
  -- Under sound primitives, on a ledger that is not empty and whose log and receipts can be read,
  -- if the log holds a witness whose statement carries the root and the number of some entry
  -- hashes, and `verify_anchors` passes, then the ledger still begins with exactly those entry
  -- hashes, or a collision of BLAKE3 is at hand.
  pub verify_anchors_keeps :
      IsSound c
      → (s : LedgerStore) (log : L) (identity : Text) (ws : List Witness)
        (receipts : List AnchorReceipt) (faults : List AnchorDivergence)
      → ledger_id c s.db ≡ some identity
      → anchor.witnesses log identity s.signer.public_key ≡ ok ws
      → anchors json casts s.db (some anchor.name) ≡ ok receipts
      → check_receipts c json casts anchor log receipts ≡ ok faults
      → (w : Witness) (st : CheckpointStatement) (committed : List Bytes) (r : AnchorReport)
      → Memᴰ w ws
      → w.statement ≡ some st
      → st.root ≡ root_hex c committed
      → st.leaf_count ≡ length committed
      → verify_anchors c json casts anchor s log true ≡ ok r
      → r.is_ok ≡ true
      → ((length committed ≤ count s) × (take (length committed) (current_leaves s.db) ≡ committed))
        ⊎ Collision c
  verify_anchors_keeps sound s log identity ws receipts faults named read kept checked w st
        committed r held returned same_root same_count run passed =
      let (r', run', exact) =
        verify_anchors_iff c json casts anchor s log identity ws receipts faults named read kept
          checked in
      let same : r' ≡ r = ground arith in
      let (_, accounted, _) = exact.0 (ap (λ (x : AnchorReport). x.is_ok) same ∙ passed) in
      let leaves = current_leaves s.db in
      let fits : Matches c leaves (count s) s.signer.public_key (some st) =
        subst (Matches c leaves (count s) s.signer.public_key) returned (
          All-Memᴰ (λ (x : Witness). Matches c leaves (count s) s.signer.public_key x.statement)
            held accounted.matched) in
      let root : root_hex c (take (length committed) leaves) ≡ root_hex c committed =
        ap (λ n. root_hex c (take n leaves)) (sym same_count) ∙ fits.2 ∙ same_root in
      elim (compute_root_binds c sound (take (length committed) leaves) committed
        (root_hex-injective c sound (take (length committed) leaves) committed root)) [
          | inl same_rows ↦ inl (omega arith, same_rows)
          | inr bad ↦ inr bad
        ]

  -- A ledger with no row passes, whatever the log has witnessed and though a witness is required.
  pub verify_anchors-erased :
      (s : LedgerStore) (log : L) (require : Bool)
      → s.ledger ≡ []
      → (r : AnchorReport) × (verify_anchors c json casts anchor s log require ≡ ok r)
        × (r.is_ok ≡ true)
        × (r.divergences ≡ [])
  unfolding verify_anchors ledger_id
  verify_anchors-erased s log require e =
      (unidentified c json casts anchor s, rw e refl, refl, refl)
