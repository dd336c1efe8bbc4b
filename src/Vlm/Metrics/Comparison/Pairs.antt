-- ===== src/Vlm/Metrics/Comparison/Pairs.antt =====
-- The samples that the comparison of the frame strategies counts.
use live_photo_llm.Prelude.{
  String, inl, inr, Bool-cases, str_eq, ℕ, ◌+◌, Bool, true, false, Option, none, some, List, [],
  ◌∷◌, ◌≡◌, refl, ap, ◌∙◌, sym, arith, length,
}
use live_photo_llm.Vlm.Metrics.{count, ResultRecord, is_correct, is_spoof_taken}
use live_photo_llm.Vlm.Metrics.Balance.{
  is_unlabelled, labelled, is_correct-Answers, is_spoof_taken-Answers,
}
use live_photo_llm.Vlm.Metrics.Comparison.{
  PairCounts, Sample, with_outcome, with_spoofs, judged, compare_pair, compare_sample,
  compare_samples, samples_into, no_pairs, strategy_record, paired_strategy_comparison, ByStrategy,
  is_sample_of, put_strategy, put_sample,
}

-- The samples counted so far.
abbrev pub counted : PairCounts → ℕ
counted c =
    c.both_correct + c.single_correct_triad_wrong + c.single_wrong_triad_correct + c.both_wrong
    + c.not_paired

counted-with_outcome : (s t : Bool) (c : PairCounts) → counted (with_outcome s t c) ≡ counted c + 1
counted-with_outcome true true c = omega arith
counted-with_outcome true false c = omega arith
counted-with_outcome false true c = omega arith
counted-with_outcome false false c = omega arith

counted-judged :
    (s t x y : Option Bool) (c d : PairCounts)
    → judged s t x y c ≡ some d
    → counted d ≡ counted c + 1
counted-judged (some s) (some t) (some x) (some y) c d h =
    let same : with_spoofs x y (with_outcome s t c) ≡ d = cc h in
    ap counted (sym same) ∙ counted-with_outcome s t c
counted-judged none t x y c d h = absurd (cc h)
counted-judged (some s) none x y c d h = absurd (cc h)
counted-judged (some s) (some t) none y c d h = absurd (cc h)
counted-judged (some s) (some t) (some x) none c d h = absurd (cc h)

counted-compare_pair :
    (single triad : Option ResultRecord) (c d : PairCounts)
    → compare_pair single triad c ≡ some d
    → counted d ≡ counted c + 1
counted-compare_pair (some s) (some t) c d h =
    counted-judged (is_correct s) (is_correct t) (is_spoof_taken s) (is_spoof_taken t) c d h
counted-compare_pair none t c d h =
    let same : record c { not_paired = c.not_paired + 1 } ≡ d = cc h in
    ap counted (sym same) ∙ omega arith
counted-compare_pair (some s) none c d h =
    let same : record c { not_paired = c.not_paired + 1 } ≡ d = cc h in
    ap counted (sym same) ∙ omega arith

stuck : (samples : List Sample) (d : PairCounts) → compare_samples samples none ≡ some d → ⊥
stuck [] d h = cc h
stuck (s ∷ rest) d h = cc h

counted-compare_samples :
    (samples : List Sample) (c d : PairCounts)
    → compare_samples samples (some c) ≡ some d
    → counted d ≡ counted c + length samples
counted-compare_samples [] c d h = let same : c ≡ d = cc h in ap counted (sym same) ∙ omega arith
counted-compare_samples (s ∷ rest) c d h =
    go (compare_sample s c) refl h (counted-compare_samples rest)
  where
    go :
        (o : Option PairCounts)
        → compare_sample s c ≡ o
        → compare_samples rest o ≡ some d
        → ((b d : PairCounts)
            → compare_samples rest (some b) ≡ some d
            → counted d ≡ counted b + length rest)
        → counted d ≡ counted c + length (s ∷ rest)
    go none e k later = absurd (stuck rest d k)
    go (some b) e k later =
        let one =
          counted-compare_pair (strategy_record "single-quality-v1" s.by_strategy)
            (strategy_record "temporal-triad-v1" s.by_strategy) c b e in
        let others = later b d k in omega (arith, one, others)

-- Each record has a label of the table.
abbrev AreLabelled : ByStrategy → Type 0
AreLabelled [] = Unit
AreLabelled ((strategy, r) ∷ rest) = (is_unlabelled r ≡ false) × AreLabelled rest

abbrev AreAllLabelled : List Sample → Type 0
AreAllLabelled [] = Unit
AreAllLabelled (s ∷ rest) = AreLabelled s.by_strategy × AreAllLabelled rest

put_strategy-AreLabelled :
    (r : ResultRecord) (b : ByStrategy)
    → is_unlabelled r ≡ false
    → AreLabelled b
    → AreLabelled (put_strategy r b)
put_strategy-AreLabelled r [] own h = (own, tt)
put_strategy-AreLabelled r ((strategy, old) ∷ rest) own (first, later) =
    elim (Bool-cases (str_eq strategy r.frame_strategy)) [
      | inl e ↦ rw e (own, later)
      | inr e ↦ rw e (first, put_strategy-AreLabelled r rest own later)
    ]

put_sample-AreAllLabelled :
    (r : ResultRecord) (samples : List Sample)
    → is_unlabelled r ≡ false
    → AreAllLabelled samples
    → AreAllLabelled (put_sample r samples)
put_sample-AreAllLabelled r [] own h = ((own, tt), tt)
put_sample-AreAllLabelled r (s ∷ rest) own (first, later) = elim (Bool-cases (is_sample_of r s)) [
  | inl e ↦ rw e (put_strategy-AreLabelled r s.by_strategy own first, later)
  | inr e ↦ rw e (first, put_sample-AreAllLabelled r rest own later)
]

samples_into-AreAllLabelled :
    (samples : List Sample) (records : List ResultRecord)
    → count is_unlabelled records ≡ 0
    → AreAllLabelled samples
    → AreAllLabelled (samples_into samples records)
samples_into-AreAllLabelled samples [] h all = all
samples_into-AreAllLabelled samples (r ∷ rs) h all =
    let (own, others) = labelled r rs h in
    samples_into-AreAllLabelled (put_sample r samples) rs others
      (put_sample-AreAllLabelled r samples own all)

abbrev IsLabelled : Option ResultRecord → Type 0
IsLabelled none = Unit
IsLabelled (some r) = is_unlabelled r ≡ false

strategy_record-IsLabelled :
    (name : String) (b : ByStrategy) → AreLabelled b → IsLabelled (strategy_record name b)
strategy_record-IsLabelled name [] h = tt
strategy_record-IsLabelled name ((strategy, r) ∷ rest) (first, later) =
    elim (Bool-cases (str_eq strategy name)) [
      | inl e ↦ rw e first
      | inr e ↦ rw e (strategy_record-IsLabelled name rest later)
    ]

compare_pair-some :
    (single triad : Option ResultRecord) (c : PairCounts)
    → IsLabelled single
    → IsLabelled triad
    → (d : PairCounts) × (compare_pair single triad c ≡ some d)
compare_pair-some none triad c h k = (_, refl)
compare_pair-some (some s) none c h k = (_, refl)
compare_pair-some (some s) (some t) c h k =
    let (a, e) = is_correct-Answers s h in
    let (b, f) = is_correct-Answers t k in
    let (x, g) = is_spoof_taken-Answers s h in
    let (y, l) = is_spoof_taken-Answers t k in
    (with_spoofs x y (with_outcome a b c), (λ i. judged (e i) (f i) (g i) (l i) c))

compare_samples-some :
    (samples : List Sample) (c : PairCounts)
    → AreAllLabelled samples
    → (d : PairCounts) × (compare_samples samples (some c) ≡ some d)
compare_samples-some [] c h = (c, refl)
compare_samples-some (s ∷ rest) c (first, later) =
    let (b, e) =
      compare_pair-some (strategy_record "single-quality-v1" s.by_strategy)
        (strategy_record "temporal-triad-v1" s.by_strategy) c
        (strategy_record-IsLabelled "single-quality-v1" s.by_strategy first)
        (strategy_record-IsLabelled "temporal-triad-v1" s.by_strategy first) in
    let (d, f) = compare_samples-some rest b later in (d, ap (compare_samples rest) e ∙ f)

-- Where the table of labels has each record's ground truth, the comparison of the strategies
-- returns, and its five counts together are the number of samples.
pub paired_strategy_comparison_partitions :
    (records : List ResultRecord)
    → count is_unlabelled records ≡ 0
    → (d : PairCounts) × (paired_strategy_comparison records ≡ some d)
      × (counted d ≡ length (samples_into [] records))
unfolding paired_strategy_comparison
paired_strategy_comparison_partitions records h =
    let samples = samples_into [] records in
    let (d, e) =
      compare_samples-some samples no_pairs (samples_into-AreAllLabelled [] records h tt) in
    let all = counted-compare_samples samples no_pairs d e in (d, e, omega (arith, all))
