-- ===== src/Exporters/Rules.antt =====
-- The rules of a SARIF document.
use memory_blackbox.Prelude.{
  ◌≡◌, ◌↔◌, refl, false, List, [], ◌∷◌, map, Text, arith, contains, In, In-sorted, In-to_set,
  to_set, to_set-Distinct, sorted, insert_sorted, Distinct, eq_iff,
}
use memory_blackbox.Model.Findings.{Finding}
use memory_blackbox.Exporters.Sarif.{rule_ids}

insert_sorted-contains :
    (k x : Text) (ys : List Text) → contains (insert_sorted x ys) k ≡ contains (x ∷ ys) k
unfolding insert_sorted contains
insert_sorted-contains k x [] = refl
insert_sorted-contains k x (y ∷ ys) = ground (arith, insert_sorted-contains k x ys)

insert_sorted-Distinct :
    (x : Text) (ys : List Text)
    → contains ys x ≡ false
    → Distinct ys
    → Distinct (insert_sorted x ys)
unfolding insert_sorted contains
insert_sorted-Distinct x [] h d = (refl, tt)
insert_sorted-Distinct x (y ∷ ys) h d =
    ground
      (arith, insert_sorted-Distinct x ys, insert_sorted-contains y x ys, eq_iff x y, eq_iff y x)

sorted-contains :
    (k : Text) (xs : List Text) → contains xs k ≡ false → contains (sorted xs) k ≡ false
sorted-contains k xs h = ground (arith, In-sorted k xs)

sorted-Distinct : (xs : List Text) → Distinct xs → Distinct (sorted xs)
unfolding sorted
sorted-Distinct [] d = tt
sorted-Distinct (x ∷ xs) d =
    insert_sorted-Distinct x (sorted xs) (sorted-contains x xs d.0) (sorted-Distinct xs d.1)

-- The rules of the document are exactly the names of the detectors with a finding, each once.
pub rule_ids-Distinct :
    (findings : List Finding)
    → Distinct (rule_ids findings)
      × ((k : Text)
          → In k (rule_ids findings) ↔ In k (map (λ (f : Finding). f.detector_name) findings))
unfolding rule_ids
rule_ids-Distinct findings =
    let names = map (λ (f : Finding). f.detector_name) findings in
    (
      sorted-Distinct (to_set names) (to_set-Distinct names),
      λ k. ground (arith, In-sorted k (to_set names), In-to_set k names),
    )
