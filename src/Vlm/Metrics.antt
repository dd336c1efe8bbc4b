-- ===== src/Vlm/Metrics.antt =====
-- The counts of an evaluation over a data set: backend/app/experiments/vlm/metrics.py.
pub mod Totals
pub mod Balance
pub mod Comparison
use live_photo_llm.Prelude.{
  ℕ, zero, suc, ◌+◌, ◌-◌, String, Bool, true, false, not, ◌&&◌, ◌||◌, Option, none, some, List, [],
  ◌∷◌, ◌++◌, if◌then◌else◌, ltb, ◌==◌, length, codes, str_eq,
}
use live_photo_llm.Python.{Json}

-- `self_reported_confidence` is a float.
pub record ResultRecord : Type 0 where
  pub sample_id : String
  pub ground_truth : String
  pub predicted : Option String
  pub attack_medium_predicted : Option String
  pub provider : String
  pub model : String
  pub prompt_version : String
  pub frame_strategy : String
  pub self_reported_confidence : Option Json
  pub latency_ms : Option ℕ
  pub error : Option String
  pub repetition : Option ℕ

-- A quotient of counts, which the source rounds to four digits.
pub record Rate : Type 0 where
  pub numerator : ℕ
  pub denominator : ℕ

pub record ClassRow : Type 0 where
  pub label : String
  pub n : ℕ
  pub correct : ℕ
  pub uncertain : ℕ
  pub errors : ℕ
  pub spoof_to_live : ℕ
  pub apcer_style_estimate : Option Rate

pub record Bucket : Type 0 where
  pub n : ℕ
  pub correct : ℕ
  pub incorrect : ℕ
  pub spoof_to_live : ℕ

pub record Metrics : Type 0 where
  pub sample_count : ℕ
  pub class_rows : List ClassRow
  pub spoof_to_live_total : ℕ
  pub spoof_total : ℕ
  pub bpcer_style : Option Rate
  pub live_precision : Rate
  pub live_recall : Option Rate
  pub conclusive_rate : Option Rate
  pub uncertain_rate : Option Rate
  pub technical_error_rate : Option Rate
  pub confidence_buckets : List Bucket

abbrev pub screen_labels : List String
screen_labels =
    "SCREEN_MOBILE" ∷ "SCREEN_TABLET" ∷ "SCREEN_LAPTOP" ∷ "SCREEN_MONITOR" ∷ "SCREEN_DISPLAY" ∷ []

abbrev pub print_labels : List String
print_labels = "PRINT_PHOTO" ∷ "PRINT_NEWSPAPER" ∷ "PRINT_MAGAZINE" ∷ []

abbrev is_one_of : List String → String → Bool
is_one_of [] s = false
is_one_of (x ∷ xs) s = str_eq x s || is_one_of xs s

-- `none` is the KeyError of a label that the table does not have.
unfoldable pub classify_for : String → Option String
classify_for label =
    if str_eq label "LIVE"
    then some "LIVE"
    else if is_one_of screen_labels label
    then some "SCREEN_REPLAY"
    else if is_one_of print_labels label
    then some "PRINT_ATTACK"
    else none

abbrev pub is_none : Option String → Bool
is_none none = true
is_none (some _) = false

abbrev pub is_error : ResultRecord → Bool
is_error r = not (is_none r.error)

abbrev pub says : Option String → String → Bool
says none s = false
says (some p) s = str_eq p s

abbrev pub is_uncertain : ResultRecord → Bool
is_uncertain r = not (is_error r) && says r.predicted "UNCERTAIN"

abbrev pub is_live : ResultRecord → Bool
is_live r = says r.predicted "LIVE"

abbrev pub says_expected : Option String → Option String → Option Bool
says_expected predicted none = none
says_expected predicted (some c) = some (says predicted c)

abbrev pub is_correct : ResultRecord → Option Bool
is_correct r =
    if is_error r || is_uncertain r || is_none r.predicted
    then some false
    else says_expected r.predicted (classify_for r.ground_truth)

abbrev pub bit : Bool → ℕ
bit false = 0
bit true = 1

-- `sum(1 for r in records if p(r))`
abbrev pub count : (ResultRecord → Bool) → List ResultRecord → ℕ
count p [] = 0
count p (r ∷ rs) = bit (p r) + count p rs

abbrev pub one_more : Option Bool → Option ℕ → Option ℕ
one_more (some b) (some n) = some (bit b + n)
one_more (some b) none = none
one_more none n = none

-- The same where the test may raise.
abbrev pub try_count : (ResultRecord → Option Bool) → List ResultRecord → Option ℕ
try_count p [] = some 0
try_count p (r ∷ rs) = one_more (p r) (try_count p rs)

abbrev pub Groups : Type 0
Groups = List (String × List ResultRecord)

-- `groups[key].append(record)` on a defaultdict of lists
abbrev pub add_to : String → ResultRecord → Groups → Groups
add_to key r [] = (key, r ∷ []) ∷ []
add_to key r ((label, rs) ∷ groups) =
    if str_eq label key then (label, rs ++ (r ∷ [])) ∷ groups else (label, rs) ∷ add_to key r groups

abbrev pub group_into : (ResultRecord → String) → Groups → List ResultRecord → Groups
group_into key groups [] = groups
group_into key groups (r ∷ rs) = group_into key (add_to (key r) r groups) rs

-- Texts are ordered by their code points.
abbrev pub precedes : List ℕ → List ℕ → Bool
precedes [] ys = true
precedes (x ∷ xs) [] = false
precedes (x ∷ xs) (y ∷ ys) = ltb x y || (x == y && precedes xs ys)

abbrev pub insert_group : String × List ResultRecord → Groups → Groups
insert_group g [] = g ∷ []
insert_group g (h ∷ groups) =
    if precedes (codes g.0) (codes h.0) then g ∷ h ∷ groups else h ∷ insert_group g groups

-- `sorted(groups.items())`
abbrev pub sort_groups : Groups → Groups
sort_groups [] = []
sort_groups (g ∷ groups) = insert_group g (sort_groups groups)

abbrev rate : ℕ → ℕ → Option Rate
rate k n = if n == 0 then none else some (record { numerator = k; denominator = n })

abbrev pub is_spoof_to_live : String → ResultRecord → Bool
is_spoof_to_live label r = not (str_eq label "LIVE") && is_live r

abbrev pub row_of : String → List ResultRecord → ℕ → ClassRow
row_of label records correct = record {
  label = label;
  n = length records;
  correct = correct;
  uncertain = count is_uncertain records;
  errors = count is_error records;
  spoof_to_live = count (is_spoof_to_live label) records;
  apcer_style_estimate =
      if str_eq label "LIVE"
      then none
      else rate (count (is_spoof_to_live label) records) (length records);
}

abbrev pub with_correct : String → List ResultRecord → Option ℕ → Option ClassRow
with_correct label records none = none
with_correct label records (some correct) = some (row_of label records correct)

-- `_class_row`
abbrev pub class_row : String → List ResultRecord → Option ClassRow
class_row label records = with_correct label records (try_count is_correct records)

abbrev pub prepend : Option ClassRow → Option (List ClassRow) → Option (List ClassRow)
prepend (some row) (some rows) = some (row ∷ rows)
prepend (some row) none = none
prepend none rows = none

abbrev pub rows_of : Groups → Option (List ClassRow)
rows_of [] = some []
rows_of ((label, records) ∷ groups) = prepend (class_row label records) (rows_of groups)

-- `by_class.get("LIVE", [])`
abbrev pub live_records : Groups → List ResultRecord
live_records [] = []
live_records ((label, records) ∷ groups) =
    if str_eq label "LIVE" then records else live_records groups

abbrev pub spoof_records : Groups → List ResultRecord
spoof_records [] = []
spoof_records ((label, records) ∷ groups) =
    if str_eq label "LIVE" then spoof_records groups else records ++ spoof_records groups

abbrev pub is_conclusive : ResultRecord → Bool
is_conclusive r = not (is_error r) && not (says r.predicted "UNCERTAIN")

abbrev pub incorrect_where : ResultRecord → Option Bool → Option Bool
incorrect_where r none = none
incorrect_where r (some c) = some (not c && not (is_uncertain r) && not (is_error r))

abbrev pub is_incorrect : ResultRecord → Option Bool
is_incorrect r = incorrect_where r (is_correct r)

abbrev pub taken_where : ResultRecord → Option String → Option Bool
taken_where r none = none
taken_where r (some c) = some (not (str_eq c "LIVE") && is_live r)

abbrev pub is_spoof_taken : ResultRecord → Option Bool
is_spoof_taken r = taken_where r (classify_for r.ground_truth)

-- `at_least c k` and `below c k` compare a float with k fifths.
module _ (at_least below : Json → ℕ → Bool) where
  abbrev pub is_between : ℕ → ℕ → Option Json → Bool
  is_between lower upper none = false
  is_between lower upper (some c) = at_least c lower && below c upper

  abbrev pub bucket_records : ℕ → ℕ → List ResultRecord → List ResultRecord
  bucket_records lower upper [] = []
  bucket_records lower upper (r ∷ rs) =
      if is_between lower upper r.self_reported_confidence
      then r ∷ bucket_records lower upper rs
      else bucket_records lower upper rs

  abbrev pub bucket_from : ℕ → Option ℕ → Option ℕ → Option ℕ → Option Bucket
  bucket_from n (some correct) (some incorrect) (some taken) =
      some (record { n = n; correct = correct; incorrect = incorrect; spoof_to_live = taken })
  bucket_from n _ _ _ = none

  abbrev pub bucket_of : List ResultRecord → Option Bucket
  bucket_of rs =
      bucket_from (length rs) (try_count is_correct rs) (try_count is_incorrect rs)
        (try_count is_spoof_taken rs)

  abbrev pub more_buckets : Option Bucket → Option (List Bucket) → Option (List Bucket)
  more_buckets (some b) (some bs) = some (b ∷ bs)
  more_buckets _ _ = none

  abbrev pub buckets_from : ℕ → ℕ → List ResultRecord → Option (List Bucket)
  buckets_from zero lower records = some []
  buckets_from (suc k) lower records =
      more_buckets (bucket_of (bucket_records lower (suc lower) records))
        (buckets_from k (suc lower) records)

  -- `_confidence_buckets`: five buckets of one fifth each
  abbrev pub confidence_buckets : List ResultRecord → Option (List Bucket)
  confidence_buckets records = buckets_from 5 0 records

  abbrev accepted : ResultRecord → Bool
  accepted r = not (is_error r) && is_live r

  abbrev at_least_one : ℕ → ℕ
  at_least_one n = if n == 0 then 1 else n

  abbrev pub metrics_of :
      List ResultRecord → Groups → Option (List ClassRow) → Option (List Bucket) → Option Metrics
  metrics_of records groups (some rows) (some buckets) =
      let live = live_records groups in
      let live_total = length live in
      let live_accept = count accepted live in
      some (record {
        sample_count = length records;
        class_rows = rows;
        spoof_to_live_total = count is_live (spoof_records groups);
        spoof_total = length (spoof_records groups);
        bpcer_style = rate (live_total - live_accept) live_total;
        live_precision = record {
          numerator = live_accept;
          denominator = at_least_one (count is_live records);
        };
        live_recall = rate live_accept live_total;
        conclusive_rate = rate (count is_conclusive records) (length records);
        uncertain_rate = rate (count is_uncertain records) (length records);
        technical_error_rate = rate (count is_error records) (length records);
        confidence_buckets = buckets;
      })
  metrics_of records groups _ _ = none

  -- The latencies and the Wilson intervals are left out.
  unfoldable pub compute_metrics : List ResultRecord → Option Metrics
  compute_metrics records =
      let by_class = group_into (λ r. r.ground_truth) [] records in
      metrics_of records by_class (rows_of (sort_groups by_class)) (confidence_buckets records)
