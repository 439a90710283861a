-- ===== src/Query/Ranking.antt =====
-- What `trace` of src/memory_blackbox/query/trace.py returns: which roots, and in which order.
use memory_blackbox.Prelude.{
  ℕ, zero, suc, ◌<◌, ◌≤◌, ◌≡◌, ◌≢◌, ◌⊎◌, inl, inr, refl, sym, ap, ◌∙◌, Bool, true, false, List, [],
  ◌∷◌, map, some, arith, Text, codes, ◌==◌, eq_iff, contains, In, get_elem?, ok, >>=-eq-ok, subst,
  ltb, leb, nat_eq, not, ◌&&◌, ◌||◌, All, ok-injective,
}
use memory_blackbox.Model.Json.{Json, null, bool, int, float, str, arr, obj}
use memory_blackbox.Query.Trace.{
  TraceRoot, SortKey, suspicion_of, suspicion, time_text, sort_key, keyed, key_leb,
}

-- The levels of trust, the most suspicious first.
abbrev pub levels : List Text
levels =
    codes "quarantined"
    ∷ codes "untrusted"
    ∷ codes "semi_trusted"
    ∷ codes "trusted"
    ∷ codes "system"
    ∷ []

-- The place of a level; any other value counts as untrusted.
abbrev pub HasRank : Json → ℕ → Type 0
HasRank level n =
    ((s : Text) × (level ≡ str s) × (get_elem? levels n ≡ some s))
    ⊎ (((s : Text) → In s levels → level ≢ str s) × (n ≡ 1))

module _ (recency_leb : Text → Text → Bool) where
  -- Not older, and as central if equally old.
  abbrev pub IsRecent : TraceRoot → TraceRoot → Type 0
  IsRecent a b =
      (p q : Text)
      → a.created_at ≡ str p
      → b.created_at ≡ str q
      → (recency_leb p q ≡ true) × (recency_leb q p ≡ true → b.centrality ≤ a.centrality)

  -- More suspicious, or as suspicious and not older, or as old and as central.
  abbrev pub Precedes : TraceRoot → TraceRoot → Type 0
  Precedes a b =
      (i j : ℕ)
      → HasRank a.trust_level i
      → HasRank b.trust_level j
      → (i < j) ⊎ ((i ≡ j) × IsRecent a b)

  -- Each root precedes the next.
  abbrev pub IsRanked : List TraceRoot → Type 0
  IsRanked [] = Unit
  IsRanked (a ∷ []) = Unit
  IsRanked (a ∷ b ∷ rs) = Precedes a b × IsRanked (b ∷ rs)

some-injective : {x y : Text} → some x ≡ some y → x ≡ y
some-injective h = cc

str-injective : {x y : Text} → str x ≡ str y → x ≡ y
str-injective h = cc

suspicion_of-level : (n : ℕ) (s : Text) → get_elem? levels n ≡ some s → suspicion_of s ≡ n
unfolding ◌==◌
suspicion_of-level zero s h = subst (λ (t : Text). suspicion_of t ≡ 0) (some-injective h) refl
suspicion_of-level (suc zero) s h = subst (λ (t : Text). suspicion_of t ≡ 1) (some-injective h) refl
suspicion_of-level (suc (suc zero)) s h =
    subst (λ (t : Text). suspicion_of t ≡ 2) (some-injective h) refl
suspicion_of-level (suc (suc (suc zero))) s h =
    subst (λ (t : Text). suspicion_of t ≡ 3) (some-injective h) refl
suspicion_of-level (suc (suc (suc (suc zero)))) s h =
    subst (λ (t : Text). suspicion_of t ≡ 4) (some-injective h) refl
suspicion_of-level (suc (suc (suc (suc (suc n))))) s h = cc

differs : (s t : Text) → s ≢ t → (s == t) ≡ false
differs s t h = ground (arith, eq_iff s t)

suspicion_of-other : (s : Text) → ((t : Text) → In t levels → s ≢ t) → suspicion_of s ≡ 1
suspicion_of-other s apart =
    rw
      (differs s (codes "quarantined") (apart (codes "quarantined") (unfold contains ◌==◌ in refl)))
      (rw (differs s (codes "untrusted") (apart (codes "untrusted") (unfold contains ◌==◌ in refl)))
        (rw
          (differs s (codes "semi_trusted")
            (apart (codes "semi_trusted") (unfold contains ◌==◌ in refl)))
          (rw (differs s (codes "trusted") (apart (codes "trusted") (unfold contains ◌==◌ in refl)))
            (rw (differs s (codes "system") (apart (codes "system") (unfold contains ◌==◌ in refl)))
              refl))))

suspicion_rank : (v : Json) (k n : ℕ) → suspicion v ≡ ok k → HasRank v n → k ≡ n
suspicion_rank v k n h (inl (s, e, at)) =
    let same : suspicion (str s) ≡ ok k = ap suspicion (sym e) ∙ h in
    ok-injective (sym same) ∙ suspicion_of-level n s at
suspicion_rank (str s) k n h (inr (other, one)) =
    ok-injective (sym h) ∙ suspicion_of-other s (λ t i e. other t i (ap str e)) ∙ sym one
suspicion_rank (arr vs) k n h (inr (other, one)) = cc
suspicion_rank (obj fs) k n h (inr (other, one)) = cc
suspicion_rank null k n h (inr (other, one)) = ground arith
suspicion_rank (bool b) k n h (inr (other, one)) = ground arith
suspicion_rank (int m) k n h (inr (other, one)) = ground arith
suspicion_rank (float bits) k n h (inr (other, one)) = ground arith

time_text_lem : (v : Json) (p : Text) → time_text v ≡ ok p → v ≡ str p
time_text_lem (str s) p h = ap str (ok-injective h)
time_text_lem null p h = cc
time_text_lem (bool b) p h = cc
time_text_lem (int m) p h = cc
time_text_lem (float bits) p h = cc
time_text_lem (arr vs) p h = cc
time_text_lem (obj fs) p h = cc

-- A root with its key.
pub record IsKeyed (key : SortKey) (r : TraceRoot) : Type 0 where
  pub leveled : suspicion r.trust_level ≡ ok key.level
  pub timed : r.created_at ≡ str key.time
  pub weighed : r.centrality ≡ key.weight

sort_key-IsKeyed : (r : TraceRoot) (key : SortKey) → sort_key r ≡ ok key → IsKeyed key r
sort_key-IsKeyed r key h =
    let (level, leveled, timing) = >>=-eq-ok (suspicion r.trust_level) _ h in
    let (time, timed, done) = >>=-eq-ok (time_text r.created_at) _ timing in
    let same : record { level = level; time = time; weight = r.centrality } ≡ key =
      ok-injective done in
    subst (λ (k : SortKey). IsKeyed k r) same
      (record { leveled = leveled; timed = time_text_lem r.created_at time timed; weighed = refl })

abbrev pub AreKeyed : List (SortKey × TraceRoot) → Type 0
AreKeyed ks = All (λ (k : SortKey × TraceRoot). IsKeyed k.0 k.1) ks

-- `keyed` gives each root its key.
pub keyed-AreKeyed :
    (rs : List TraceRoot) (ks : List (SortKey × TraceRoot))
    → keyed rs ≡ ok ks
    → AreKeyed ks × (map (λ (k : SortKey × TraceRoot). k.1) ks ≡ rs)
unfolding keyed
keyed-AreKeyed [] ks h =
    subst
      (λ (l : List (SortKey × TraceRoot)).
        AreKeyed l × (map (λ (k : SortKey × TraceRoot). k.1) l ≡ []))
      (ok-injective h) (tt, refl)
keyed-AreKeyed (r ∷ rs) ks h =
    let (key, found, more) = >>=-eq-ok (sort_key r) _ h in
    let (rest, later, done) = >>=-eq-ok (keyed rs) _ more in
    let (all, same) = keyed-AreKeyed rs rest later in
    subst
      (λ (l : List (SortKey × TraceRoot)).
        AreKeyed l × (map (λ (k : SortKey × TraceRoot). k.1) l ≡ r ∷ rs))
      (ok-injective done) ((sort_key-IsKeyed r key found, all), ap (◌∷◌ r) same)

module _ (recency_leb : Text → Text → Bool) where
  by_tests :
      (i j : ℕ) (forth back : Bool) (v w : ℕ)
      → (back ≡ false → forth ≡ true)
      → (ltb i j || (nat_eq i j && (not back || (forth && leb v w)))) ≡ true
      → (i < j) ⊎ ((i ≡ j) × (forth ≡ true) × (back ≡ true → v ≤ w))
  by_tests i j forth back v w total h = ground arith

  pub key_leb-Precedes :
      (a b : SortKey) (r q : TraceRoot)
      → IsKeyed a r
      → IsKeyed b q
      → (recency_leb b.time a.time ≡ false → recency_leb a.time b.time ≡ true)
      → key_leb recency_leb (a, r) (b, q) ≡ true
      → Precedes recency_leb r q
  key_leb-Precedes a b r q ha hb total h i j ri qj =
      let below : a.level ≡ i = suspicion_rank r.trust_level a.level i ha.leveled ri in
      let above : b.level ≡ j = suspicion_rank q.trust_level b.level j hb.leveled qj in
      let choice : (a.level < b.level)
          ⊎ ((a.level ≡ b.level)
              × (recency_leb a.time b.time ≡ true)
              × (recency_leb b.time a.time ≡ true → b.weight ≤ a.weight)) =
        by_tests a.level b.level (recency_leb a.time b.time) (recency_leb b.time a.time) b.weight
          a.weight total h in
      elim choice [
        | inl less ↦ inl (ground arith)
        | inr (same, recent, central) ↦ inr (
          sym below ∙ same ∙ above,
          λ p t ep et.
              let time : a.time ≡ p = str-injective (sym ha.timed ∙ ep) in
              let later : b.time ≡ t = str-injective (sym hb.timed ∙ et) in
              (
                subst (λ (x : Text). recency_leb x t ≡ true) time
                    (subst (λ (x : Text). recency_leb a.time x ≡ true) later recent),
                λ back.
                    let weights : b.weight ≤ a.weight = central (
                      subst (λ (x : Text). recency_leb x a.time ≡ true) (sym later)
                        (subst (λ (x : Text). recency_leb t x ≡ true) (sym time) back)) in
                    ground (arith, ha.weighed, hb.weighed),
              ),
        )
      ]
