-- ===== src/Vlm/Metrics/Balance.antt =====
-- What an evaluation over a data set counts.
use live_photo_llm.Prelude.{
  ℕ, zero, suc, ◌+◌, String, Bool, false, ◌||◌, Option, none, some, List, [], ◌∷◌, ◌≡◌, refl, sym,
  ap, ◌∙◌, arith, inl, inr, Bool-cases, if◌then◌else◌, length,
}
use live_photo_llm.Python.{Json}
use live_photo_llm.Vlm.Metrics.{
  ResultRecord, ClassRow, Metrics, Groups, Bucket, count, try_count, bit, group_into, sort_groups,
  is_error, is_uncertain, is_conclusive, is_none, is_correct, classify_for, one_more, says,
  says_expected, row_of, with_correct, prepend, rows_of, metrics_of, compute_metrics,
  bucket_records, is_incorrect, is_spoof_taken, bucket_from, bucket_of, more_buckets, buckets_from,
  incorrect_where, taken_where, is_between,
}
use live_photo_llm.Vlm.Metrics.Totals.{
  total, sum_of, any, column, spoofed, IsFree, members, total-group_into, sum_of-rows_of,
  total-sort_groups, count-any, total-spoof_records, parts,
}

-- The classification table does not have the label of the record.
abbrev pub is_unlabelled : ResultRecord → Bool
is_unlabelled r = is_none (classify_for r.ground_truth)

-- The test answers on records whose label the table has.
abbrev pub Answers : (ResultRecord → Option Bool) → Type 0
Answers q = (r : ResultRecord) → is_unlabelled r ≡ false → (b : Bool) × (q r ≡ some b)

pub labelled :
    (r : ResultRecord) (rs : List ResultRecord)
    → count is_unlabelled (r ∷ rs) ≡ 0
    → (is_unlabelled r ≡ false) × (count is_unlabelled rs ≡ 0)
labelled r rs h = elim (Bool-cases (is_unlabelled r)) [
  | inl e ↦ absurd (ground (arith, e, h))
  | inr e ↦ (e, ground (arith, e, h))
]

try_count-some :
    (q : ResultRecord → Option Bool)
    → Answers q
    → (rs : List ResultRecord) → count is_unlabelled rs ≡ 0
    → (n : ℕ) × (try_count q rs ≡ some n)
try_count-some q each [] h = (0, refl)
try_count-some q each (r ∷ rs) h =
    let (own, others) = labelled r rs h in
    let (b, e) = each r own in
    let (n, k) = try_count-some q each rs others in (bit b + n, (λ i. one_more (e i) (k i)))

pub is_correct-Answers : Answers is_correct
is_correct-Answers r h = go (classify_for r.ground_truth) h
  where
    go :
        (c : Option String)
        → is_none c ≡ false
        → (b : Bool) × ((if is_error r || is_uncertain r || is_none r.predicted
              then some false
              else says_expected r.predicted c)
            ≡ some b)
    go none e = absurd (cc e)
    go (some c) e = elim (Bool-cases (is_error r || is_uncertain r || is_none r.predicted)) [
      | inl g ↦ (false, rw g refl)
      | inr g ↦ (says r.predicted c, rw g refl)
    ]

is_incorrect-Answers : Answers (is_incorrect)
is_incorrect-Answers r h = let (b, e) = is_correct-Answers r h in (_, ap (incorrect_where r) e)

pub is_spoof_taken-Answers : Answers (is_spoof_taken)
is_spoof_taken-Answers r h = go (classify_for r.ground_truth) h
  where
    go : (c : Option String) → is_none c ≡ false → (b : Bool) × (taken_where r c ≡ some b)
    go none e = absurd (cc e)
    go (some c) e = (_, refl)

rows_of-some :
    (groups : Groups)
    → total (members is_unlabelled) groups ≡ 0
    → (rows : List ClassRow) × (rows_of groups ≡ some rows)
rows_of-some [] h = ([], refl)
rows_of-some ((label, rs) ∷ groups) h =
    let (n, e) = try_count-some is_correct is_correct-Answers rs (ground (arith, h)) in
    let (rows, k) = rows_of-some groups (ground (arith, h)) in
    (row_of label rs n ∷ rows, (λ i. prepend (with_correct label rs (e i)) (k i)))

module _ (at_least below : Json → ℕ → Bool) where
  bucket_records-labelled :
      (lower upper : ℕ) (rs : List ResultRecord)
      → count is_unlabelled rs ≡ 0
      → count is_unlabelled (bucket_records at_least below lower upper rs) ≡ 0
  bucket_records-labelled lower upper [] h = refl
  bucket_records-labelled lower upper (r ∷ rs) h =
      let (own, others) = labelled r rs h in
      let rest = bucket_records-labelled lower upper rs others in
      elim (Bool-cases (is_between at_least below lower upper r.self_reported_confidence)) [
        | inl e ↦ ground (arith, e, own, rest)
        | inr e ↦ ground (arith, e, rest)
      ]

  bucket_of-some :
      (rs : List ResultRecord)
      → count is_unlabelled rs ≡ 0
      → (b : Bucket) × (bucket_of at_least below rs ≡ some b)
  bucket_of-some rs h =
      let (c, e) = try_count-some is_correct is_correct-Answers rs h in
      let (w, f) = try_count-some (is_incorrect) is_incorrect-Answers rs h in
      let (t, g) = try_count-some (is_spoof_taken) is_spoof_taken-Answers rs h in
      (_, (λ i. bucket_from at_least below (length rs) (e i) (f i) (g i)))

  buckets_from-some :
      (k lower : ℕ) (rs : List ResultRecord)
      → count is_unlabelled rs ≡ 0
      → (bs : List Bucket) × (buckets_from at_least below k lower rs ≡ some bs)
  buckets_from-some zero lower rs h = ([], refl)
  buckets_from-some (suc k) lower rs h =
      let inside = bucket_records at_least below lower (suc lower) rs in
      let (b, e) = bucket_of-some inside (bucket_records-labelled lower (suc lower) rs h) in
      let (bs, f) = buckets_from-some k (suc lower) rs h in
      (b ∷ bs, (λ i. more_buckets at_least below (e i) (f i)))

total-length : (groups : Groups) → total (column (λ row. row.n)) groups ≡ total (members any) groups
total-length [] = refl
total-length ((label, rs) ∷ groups) =
    let rest = total-length groups in let own = count-any rs in ground (arith, own, rest)

-- The counts of an evaluation agree with those of its records.
pub record IsBalanced (records : List ResultRecord) (m : Metrics) : Type 0 where
  pub sampled : m.sample_count ≡ length records
  pub samples : sum_of (λ row. row.n) m.class_rows ≡ m.sample_count
  pub uncertain : sum_of (λ row. row.uncertain) m.class_rows ≡ count is_uncertain records
  pub errors : sum_of (λ row. row.errors) m.class_rows ≡ count is_error records
  pub spoofs : sum_of (λ row. row.spoof_to_live) m.class_rows ≡ m.spoof_to_live_total
  pub outcomes :
      count is_conclusive records + count is_uncertain records + count is_error records
      ≡ m.sample_count

abbrev by_class : List ResultRecord → Groups
by_class records = group_into (λ r. r.ground_truth) [] records

grouped :
    (p : ResultRecord → Bool) (records : List ResultRecord)
    → total (members p) (sort_groups (by_class records)) ≡ count p records
grouped p records =
    let sorted = total-sort_groups (members p) (by_class records) in
    let counted = total-group_into p (λ r. r.ground_truth) [] records in
    omega (arith, sorted, counted)

module _ (at_least below : Json → ℕ → Bool) where
  -- Where the table of labels has each record's ground truth, compute_metrics returns, and its
  -- class rows sum up to what the records give: their number, the uncertain ones, the errors, and
  -- the spoofs taken for LIVE, which are its total; the conclusive, the uncertain and the failed
  -- records together are the sample count.
  pub compute_metrics-IsBalanced :
      (records : List ResultRecord)
      → count is_unlabelled records ≡ 0
      → (m : Metrics) × (compute_metrics at_least below records ≡ some m) × IsBalanced records m
  unfolding compute_metrics
  compute_metrics-IsBalanced records h =
      let groups = sort_groups (by_class records) in
      let (rows, e) = rows_of-some groups (grouped is_unlabelled records ∙ h) in
      let (buckets, f) = buckets_from-some at_least below 5 0 records h in
      let sums : (c : ClassRow → ℕ) → IsFree c → sum_of c rows ≡ total (column c) groups =
        λ c free. sum_of-rows_of c free groups rows e in
      (
        _,
        (λ i. metrics_of at_least below records (by_class records) (e i) (f i)),
        record {
          sampled = refl;
          samples =
              sums (λ row. row.n) (λ l rs k. refl)
              ∙ total-length groups
              ∙ grouped any records
              ∙ count-any records;
          uncertain = sums (λ row. row.uncertain) (λ l rs k. refl) ∙ grouped is_uncertain records;
          errors = sums (λ row. row.errors) (λ l rs k. refl) ∙ grouped is_error records;
          spoofs =
              sums (λ row. row.spoof_to_live) (λ l rs k. refl)
              ∙ total-sort_groups spoofed (by_class records)
              ∙ sym (total-spoof_records (by_class records));
          outcomes = parts records;
        },
      )
