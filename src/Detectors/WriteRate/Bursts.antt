-- ===== src/Detectors/WriteRate/Bursts.antt =====
-- Which writes raise a burst: the windows against all writes that a detector has seen.
use memory_blackbox.Prelude.{
  ℕ, ◌≤◌, ◌≡◌, inl, inr, refl, ap, ◌∙◌, Bool, true, false, List, [], ◌∷◌, ◌++◌, append-nil, Text,
  leb, length, All, All-append, Bool-cases, if◌then◌else◌, ok,
}
use memory_blackbox.Model.Json.{Json}
use memory_blackbox.Model.Records.{ProvenanceRecord}
use memory_blackbox.Model.Findings.{DetectorContext}
use memory_blackbox.Detectors.WriteRate.{
  WriteRateDetector, Key, same_key, window_of, set_window, expire, key_of, burst, next_window,
  inspect,
}
use memory_blackbox.Detectors.WriteRate.Windows.{
  same_key_iff, window_of-set_window, window_of-set_window_other, expire-expire, recent,
  IsAscending, length-expire, IsAscending-concat,
}

-- A call of `inspect`.
pub record Call : Type 0 where
  pub written : ProvenanceRecord
  pub content : Text
  pub ctx : DetectorContext

-- The detector after calls, the newest first.
unfoldable pub run : WriteRateDetector → List Call → WriteRateDetector
run d [] = d
run d (call ∷ calls) = (inspect (run d calls) call.written call.content call.ctx).0

abbrev pub matching : Key → Call → List ℕ
matching key call = if same_key (key_of call.written call.ctx) key then call.ctx.now ∷ [] else []

-- The times of the writes of a key, the oldest first.
unfoldable pub times_of : Key → List Call → List ℕ
times_of key [] = []
times_of key (call ∷ calls) = times_of key calls ++ matching key call

abbrev pub IsBefore : ℕ → List Call → Type 0
IsBefore now = All (λ (call : Call). call.ctx.now ≤ now)

-- The clock does not go back.
abbrev pub IsClock : List Call → Type 0
IsClock [] = Unit
IsClock (call ∷ calls) = IsBefore call.ctx.now calls × IsClock calls

run-history :
    (d : WriteRateDetector) (calls : List Call)
    → run d calls ≡ record d { history = (run d calls).history }
unfolding run inspect
run-history d [] = refl
run-history d (call ∷ calls) =
    ap (λ (e : WriteRateDetector). record e { history = (run d (call ∷ calls)).history })
      (run-history d calls)

-- `WriteRateDetector(window_seconds, max_writes)`
abbrev pub new : ℕ → Json → ℕ → WriteRateDetector
new seconds value most = record {
  window_seconds = seconds;
  window_value = value;
  max_writes = most;
  history = [];
}

module _ (seconds : ℕ) (value : Json) (most : ℕ) where
  abbrev pub after : List Call → WriteRateDetector
  after calls = run (new seconds value most) calls

  after-seconds : (calls : List Call) → (after calls).window_seconds ≡ seconds
  after-seconds calls =
      ap (λ (d : WriteRateDetector). d.window_seconds) (run-history (new seconds value most) calls)

  after-cons :
      (call : Call) (calls : List Call)
      → (after (call ∷ calls)).history
        ≡ set_window
            (key_of call.written call.ctx)
            (expire call.ctx.now seconds
              (window_of (key_of call.written call.ctx) (after calls).history ++ call.ctx.now ∷ []))
            (after calls).history
  unfolding run inspect
  after-cons call calls =
      ap
        (λ s.
          set_window (key_of call.written call.ctx)
            (expire call.ctx.now s
              (window_of (key_of call.written call.ctx) (after calls).history ++ call.ctx.now ∷ []))
            (after calls).history)
        (after-seconds calls)

  -- The window of a key is as good as all its times.
  abbrev Tracks : Key → List Call → Type 0
  Tracks key calls =
      (now : ℕ) (xs : List ℕ)
      → IsBefore now calls
      → expire now seconds (window_of key (after calls).history ++ xs)
        ≡ expire now seconds (times_of key calls ++ xs)

  after-Tracks : (key : Key) (calls : List Call) → IsClock calls → Tracks key calls
  unfolding times_of
  after-Tracks key [] h now xs before = unfold run window_of in refl
  after-Tracks key (call ∷ calls) h now xs before =
      elim (Bool-cases (same_key (key_of call.written call.ctx) key)) [
        | inl same ↦
            let here : key_of call.written call.ctx ≡ key = (same_key_iff _ key).0 same in
            let t = call.ctx.now in
            let kept : window_of key (after (call ∷ calls)).history
                ≡ expire t seconds (times_of key calls ++ t ∷ []) =
              ap (window_of key) (after-cons call calls)
              ∙ ap
                  (λ k. window_of key (
                    set_window k (expire t seconds (window_of k (after calls).history ++ t ∷ []))
                      (after calls).history))
                  here
              ∙ window_of-set_window key _ (after calls).history
              ∙ after-Tracks key calls h.1 t (t ∷ []) h.0 in
            rw same (
              ap (λ w. expire now seconds (w ++ xs)) kept
              ∙ expire-expire t now seconds (times_of key calls ++ t ∷ []) xs before.0)
        | inr other ↦
            let kept : window_of key (after (call ∷ calls)).history
                ≡ window_of key (after calls).history =
              ap (window_of key) (after-cons call calls)
              ∙ window_of-set_window_other key _ _ (after calls).history other in
            rw (other, append-nil)
              (ap (λ w. expire now seconds (w ++ xs)) kept
                ∙ after-Tracks key calls h.1 now xs before.1)
      ]

  times_of-IsBefore :
      (key : Key) (now : ℕ) (calls : List Call)
      → IsBefore now calls
      → All (λ t. t ≤ now) (times_of key calls)
  unfolding times_of
  times_of-IsBefore key now [] h = tt
  times_of-IsBefore key now (call ∷ calls) h =
      All-append (λ t. t ≤ now) (times_of key calls) (matching key call)
        (times_of-IsBefore key now calls h.1) (one (same_key (key_of call.written call.ctx) key))
    where
      one : (b : Bool) → All (λ t. t ≤ now) (if b then call.ctx.now ∷ [] else [])
      one true = (h.0, tt)
      one false = tt

  times_of-IsAscending :
      (key : Key) (calls : List Call) → IsClock calls → IsAscending (times_of key calls)
  unfolding times_of
  times_of-IsAscending key [] h = tt
  times_of-IsAscending key (call ∷ calls) h =
      let later = times_of-IsAscending key calls h.1 in
      elim (Bool-cases (same_key (key_of call.written call.ctx) key)) [
        | inl same ↦ rw same (
            IsAscending-concat (times_of key calls) call.ctx.now later
              (times_of-IsBefore key call.ctx.now calls h.0))
        | inr other ↦ rw (other, append-nil) later
      ]

  -- After any calls of `inspect` under a clock that does not go back, the next one returns, and
  -- reports a burst exactly if the writes of its namespace and source within the window, itself
  -- included, are more than `max_writes`, with their number.
  pub inspect-recent :
      (calls : List Call) (r : ProvenanceRecord) (content : Text) (ctx : DetectorContext)
      → IsClock calls
      → IsBefore ctx.now calls
      → (inspect (after calls) r content ctx).1
        ≡ ok (
            if leb (recent ctx.now seconds (times_of (key_of r ctx) calls ++ ctx.now ∷ [])) most
            then []
            else burst
                (new seconds value most)
                r
                (recent ctx.now seconds (times_of (key_of r ctx) calls ++ ctx.now ∷ []))
              ∷ [])
  unfolding inspect
  inspect-recent calls r content ctx clock before =
      let key = key_of r ctx in
      let times = times_of key calls in
      let counted : length (next_window (after calls) key ctx.now)
          ≡ recent ctx.now seconds (times ++ ctx.now ∷ []) =
        ap (λ s. length (expire ctx.now s (window_of key (after calls).history ++ ctx.now ∷ [])))
          (after-seconds calls)
        ∙ ap length (after-Tracks key calls clock ctx.now (ctx.now ∷ []) before)
        ∙ length-expire ctx.now seconds (times ++ ctx.now ∷ []) (
            IsAscending-concat times ctx.now (times_of-IsAscending key calls clock)
              (times_of-IsBefore key ctx.now calls before)) in
      let same = run-history (new seconds value most) calls in
      ap
        (λ (d : WriteRateDetector). ok (
          if leb (length (next_window (after calls) key ctx.now)) d.max_writes
          then []
          else burst d r (length (next_window (after calls) key ctx.now)) ∷ []))
        same
      ∙ ap (λ n. ok (if leb n most then [] else burst (new seconds value most) r n ∷ [])) counted
