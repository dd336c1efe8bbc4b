-- ===== src/Tests/Metrics.antt =====
-- Runs of the metrics over a data set.
use live_photo_llm.Prelude.{
  String, true, false, Option, none, some, List, [], ◌∷◌, ◌≡◌, refl, length,
}
use live_photo_llm.Vlm.Metrics.{ResultRecord, Metrics, compute_metrics, classify_for, count}
use live_photo_llm.Vlm.Metrics.Balance.{IsBalanced, is_unlabelled, compute_metrics-IsBalanced}
use live_photo_llm.Vlm.Metrics.Comparison.{PairCounts, samples_into, paired_strategy_comparison}
use live_photo_llm.Vlm.Metrics.Comparison.Pairs.{counted, paired_strategy_comparison_partitions}

abbrev seen : String → String → String → Option String → Option String → ResultRecord
seen sample_id label strategy predicted error = record {
  sample_id = sample_id;
  ground_truth = label;
  predicted = predicted;
  attack_medium_predicted = none;
  provider = "local";
  model = "m";
  prompt_version = "v1";
  frame_strategy = strategy;
  self_reported_confidence = none;
  latency_ms = some 7;
  error = error;
  repetition = none;
}

abbrev records : List ResultRecord
records =
    seen "a" "LIVE" "single-quality-v1" (some "LIVE") none
    ∷ seen "b" "PRINT_PHOTO" "single-quality-v1" (some "LIVE") none
    ∷ seen "a" "LIVE" "temporal-triad-v1" (some "UNCERTAIN") none
    ∷ seen "b" "PRINT_PHOTO" "temporal-triad-v1" (some "PRINT_ATTACK") none
    ∷ seen "c" "SCREEN_LAPTOP" "single-quality-v1" none (some "PROVIDER_TIMEOUT")
    ∷ []

all_labelled : count is_unlabelled records ≡ 0
unfolding classify_for
all_labelled = refl

compute_metrics-IsBalanced_example :
    (m : Metrics) × (compute_metrics (λ c k. true) (λ c k. false) records ≡ some m)
    × IsBalanced records m
compute_metrics-IsBalanced_example =
    compute_metrics-IsBalanced (λ c k. true) (λ c k. false) records all_labelled

paired_strategy_comparison_partitions_example :
    (d : PairCounts) × (paired_strategy_comparison records ≡ some d)
    × (counted d ≡ length (samples_into [] records))
paired_strategy_comparison_partitions_example =
    paired_strategy_comparison_partitions records all_labelled
