-- ===== src/Vlm/Metrics/Comparison.antt =====
-- The comparison of the two frame strategies on the same samples, and the reliability of a
-- provider: paired_strategy_comparison, error_counts and provider_reliability of
-- backend/app/experiments/vlm/metrics.py.
pub mod Pairs
use live_photo_llm.Prelude.{
  ℕ, zero, suc, ◌+◌, String, Bool, true, false, not, ◌&&◌, Option, none, some, List, [], ◌∷◌,
  if◌then◌else◌, length, codes, str_eq, contains,
}
use live_photo_llm.Vlm.Metrics.{
  ResultRecord, bit, count, is_error, is_correct, is_spoof_taken, precedes,
}

-- The records of a sample by strategy; the last record of a strategy is kept.
abbrev pub ByStrategy : Type 0
ByStrategy = List (String × ResultRecord)

pub record Sample : Type 0 where
  pub sample_id : String
  pub provider : String
  pub model : String
  pub by_strategy : ByStrategy

abbrev pub is_sample_of : ResultRecord → Sample → Bool
is_sample_of r s =
    str_eq s.sample_id r.sample_id && str_eq s.provider r.provider && str_eq s.model r.model

abbrev pub put_strategy : ResultRecord → ByStrategy → ByStrategy
put_strategy r [] = (r.frame_strategy, r) ∷ []
put_strategy r ((strategy, old) ∷ rest) =
    if str_eq strategy r.frame_strategy
    then (strategy, r) ∷ rest
    else (strategy, old) ∷ put_strategy r rest

abbrev pub put_sample : ResultRecord → List Sample → List Sample
put_sample r [] =
    record {
      sample_id = r.sample_id;
      provider = r.provider;
      model = r.model;
      by_strategy = put_strategy r [];
    }
    ∷ []
put_sample r (s ∷ rest) =
    if is_sample_of r s
    then record s { by_strategy = put_strategy r s.by_strategy } ∷ rest
    else s ∷ put_sample r rest

abbrev pub samples_into : List Sample → List ResultRecord → List Sample
samples_into samples [] = samples
samples_into samples (r ∷ rs) = samples_into (put_sample r samples) rs

abbrev pub strategy_record : String → ByStrategy → Option ResultRecord
strategy_record name [] = none
strategy_record name ((strategy, r) ∷ rest) =
    if str_eq strategy name then some r else strategy_record name rest

pub record PairCounts : Type 0 where
  pub both_correct : ℕ
  pub single_correct_triad_wrong : ℕ
  pub single_wrong_triad_correct : ℕ
  pub both_wrong : ℕ
  pub not_paired : ℕ
  pub single_spoof_to_live : ℕ
  pub triad_spoof_to_live : ℕ

abbrev pub no_pairs : PairCounts
no_pairs = record {
  both_correct = 0;
  single_correct_triad_wrong = 0;
  single_wrong_triad_correct = 0;
  both_wrong = 0;
  not_paired = 0;
  single_spoof_to_live = 0;
  triad_spoof_to_live = 0;
}

abbrev pub with_outcome : Bool → Bool → PairCounts → PairCounts
with_outcome true true c = record c { both_correct = c.both_correct + 1 }
with_outcome true false c = record c {
  single_correct_triad_wrong = c.single_correct_triad_wrong + 1;
}
with_outcome false true c = record c {
  single_wrong_triad_correct = c.single_wrong_triad_correct + 1;
}
with_outcome false false c = record c { both_wrong = c.both_wrong + 1 }

abbrev pub with_spoofs : Bool → Bool → PairCounts → PairCounts
with_spoofs s t c = record c {
  single_spoof_to_live = c.single_spoof_to_live + bit s;
  triad_spoof_to_live = c.triad_spoof_to_live + bit t;
}

abbrev pub judged :
    Option Bool → Option Bool → Option Bool → Option Bool → PairCounts → Option PairCounts
judged (some s_ok) (some t_ok) (some s_taken) (some t_taken) c =
    some (with_spoofs s_taken t_taken (with_outcome s_ok t_ok c))
judged _ _ _ _ c = none

abbrev pub compare_pair : Option ResultRecord → Option ResultRecord → PairCounts → Option PairCounts
compare_pair (some single) (some triad) c =
    judged (is_correct single) (is_correct triad) (is_spoof_taken single) (is_spoof_taken triad) c
compare_pair none triad c = some (record c { not_paired = c.not_paired + 1 })
compare_pair (some single) none c = some (record c { not_paired = c.not_paired + 1 })

abbrev pub compare_sample : Sample → PairCounts → Option PairCounts
compare_sample s c =
    compare_pair (strategy_record "single-quality-v1" s.by_strategy)
      (strategy_record "temporal-triad-v1" s.by_strategy) c

abbrev pub compare_samples : List Sample → Option PairCounts → Option PairCounts
compare_samples [] c = c
compare_samples (s ∷ rest) none = none
compare_samples (s ∷ rest) (some c) = compare_samples rest (compare_sample s c)

unfoldable pub paired_strategy_comparison : List ResultRecord → Option PairCounts
paired_strategy_comparison records = compare_samples (samples_into [] records) (some no_pairs)

abbrev pub Counts : Type 0
Counts = List (String × ℕ)

abbrev pub add_count : String → Counts → Counts
add_count code [] = (code, 1) ∷ []
add_count code ((c, n) ∷ rest) =
    if str_eq c code then (c, n + 1) ∷ rest else (c, n) ∷ add_count code rest

-- An empty text counts as no error here.
abbrev pub count_error : Option String → Counts → Counts
count_error none counts = counts
count_error (some code) counts = if str_eq code "" then counts else add_count code counts

abbrev pub errors_into : Counts → List ResultRecord → Counts
errors_into counts [] = counts
errors_into counts (r ∷ rs) = errors_into (count_error r.error counts) rs

abbrev pub insert_count : String × ℕ → Counts → Counts
insert_count g [] = g ∷ []
insert_count g (h ∷ rest) =
    if precedes (codes g.0) (codes h.0) then g ∷ h ∷ rest else h ∷ insert_count g rest

abbrev pub sort_counts : Counts → Counts
sort_counts [] = []
sort_counts (g ∷ rest) = insert_count g (sort_counts rest)

abbrev pub error_counts : List ResultRecord → Counts
error_counts records = sort_counts (errors_into [] records)

abbrev count_of : String → Counts → ℕ
count_of code [] = 0
count_of code ((c, n) ∷ rest) = if str_eq c code then n else count_of code rest

abbrev pub named_codes : List String
named_codes =
    "PROVIDER_TIMEOUT" ∷ "PROVIDER_RATE_LIMITED" ∷ "PROVIDER_AUTH_ERROR" ∷ "SCHEMA_VALIDATION_ERROR"
    ∷ []

abbrev other_counts : Counts → Counts
other_counts [] = []
other_counts ((c, n) ∷ rest) =
    if contains c named_codes then other_counts rest else (c, n) ∷ other_counts rest

pub record Reliability : Type 0 where
  pub successful_requests : ℕ
  pub total_requests : ℕ
  pub timeouts : ℕ
  pub rate_limited : ℕ
  pub auth_errors : ℕ
  pub schema_failures : ℕ
  pub other_provider_errors : Counts

unfoldable pub provider_reliability : List ResultRecord → Reliability
provider_reliability records =
    let errors = error_counts records in
    record {
      successful_requests = count (λ r. not (is_error r)) records;
      total_requests = length records;
      timeouts = count_of "PROVIDER_TIMEOUT" errors;
      rate_limited = count_of "PROVIDER_RATE_LIMITED" errors;
      auth_errors = count_of "PROVIDER_AUTH_ERROR" errors;
      schema_failures = count_of "SCHEMA_VALIDATION_ERROR" errors;
      other_provider_errors = other_counts errors;
    }
