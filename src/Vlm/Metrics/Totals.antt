-- ===== src/Vlm/Metrics/Totals.antt =====
-- The totals of an evaluation and the rows of its classes.
use live_photo_llm.Prelude.{
  ℕ, ◌+◌, String, Bool, true, false, Option, none, some, List, [], ◌∷◌, ◌++◌, ◌≡◌, refl, sym, ap,
  ◌∙◌, arith, inl, inr, Bool-cases, if◌then◌else◌, length, str_eq, codes,
}
use live_photo_llm.Vlm.Metrics.{
  ResultRecord, ClassRow, Groups, bit, count, try_count, add_to, group_into, precedes, insert_group,
  sort_groups, is_live, is_error, is_uncertain, is_conclusive, is_spoof_to_live, row_of,
  with_correct, prepend, rows_of, spoof_records, is_correct,
}

-- A number of each group, summed over the groups.
abbrev pub total : (String × List ResultRecord → ℕ) → Groups → ℕ
total f [] = 0
total f (g ∷ groups) = f g + total f groups

-- A column, summed over the rows.
abbrev pub sum_of : (ClassRow → ℕ) → List ClassRow → ℕ
sum_of f [] = 0
sum_of f (row ∷ rows) = f row + sum_of f rows

abbrev pub any : ResultRecord → Bool
any r = true

pub count-any : (rs : List ResultRecord) → count any rs ≡ length rs
count-any [] = refl
count-any (r ∷ rs) = let rest = count-any rs in omega (arith, rest)

count_++ :
    (p : ResultRecord → Bool) (xs ys : List ResultRecord)
    → count p (xs ++ ys) ≡ count p xs + count p ys
count_++ p [] ys = omega arith
count_++ p (x ∷ xs) ys = let rest = count_++ p xs ys in ground (arith, rest)

module _ (p : ResultRecord → Bool) where
  abbrev pub members : String × List ResultRecord → ℕ
  members g = count p g.1

  total-add_to :
      (key : String) (r : ResultRecord) (groups : Groups)
      → total members (add_to key r groups) ≡ bit (p r) + total members groups
  total-add_to key r [] = ground arith
  total-add_to key r ((label, rs) ∷ groups) = elim (Bool-cases (str_eq label key)) [
    | inl e ↦ let added = count_++ p rs (r ∷ []) in rw e (ground (arith, added))
    | inr e ↦ let rest = total-add_to key r groups in rw e (ground (arith, rest))
  ]

  pub total-group_into :
      (key : ResultRecord → String) (groups : Groups) (rs : List ResultRecord)
      → total members (group_into key groups rs) ≡ count p rs + total members groups
  total-group_into key groups [] = omega arith
  total-group_into key groups (r ∷ rs) =
      let added = total-add_to (key r) r groups in
      let rest = total-group_into key (add_to (key r) r groups) rs in ground (arith, added, rest)

total-insert_group :
    (f : String × List ResultRecord → ℕ) (g : String × List ResultRecord) (groups : Groups)
    → total f (insert_group g groups) ≡ f g + total f groups
total-insert_group f g [] = refl
total-insert_group f g (h ∷ groups) = elim (Bool-cases (precedes (codes g.0) (codes h.0))) [
  | inl e ↦ rw e refl
  | inr e ↦ let rest = total-insert_group f g groups in rw e (ground (arith, rest))
]

pub total-sort_groups :
    (f : String × List ResultRecord → ℕ) (groups : Groups)
    → total f (sort_groups groups) ≡ total f groups
total-sort_groups f [] = refl
total-sort_groups f (g ∷ groups) =
    total-insert_group f g (sort_groups groups) ∙ ap (λ n. f g + n) (total-sort_groups f groups)

-- A column of the row of a group.
abbrev pub column : (ClassRow → ℕ) → String × List ResultRecord → ℕ
column f g = f (row_of g.0 g.1 0)

-- A column that does not depend on the number of the correct answers.
abbrev pub IsFree : (ClassRow → ℕ) → Type 0
IsFree f =
    (label : String) (rs : List ResultRecord) (correct : ℕ)
    → f (row_of label rs correct) ≡ f (row_of label rs 0)

module _ (f : ClassRow → ℕ) (free : IsFree f) where
  sum_of-prepend :
      (label : String) (rs : List ResultRecord) (groups : Groups) (correct : Option ℕ)
      (later : Option (List ClassRow)) (rows : List ClassRow)
      → ((tail : List ClassRow) → later ≡ some tail → sum_of f tail ≡ total (column f) groups)
      → prepend (with_correct label rs correct) later ≡ some rows
      → sum_of f rows ≡ total (column f) ((label, rs) ∷ groups)
  sum_of-prepend label rs groups none later rows each h = absurd (cc h)
  sum_of-prepend label rs groups (some k) none rows each h = absurd (cc h)
  sum_of-prepend label rs groups (some k) (some tail) rows each h =
      let same : row_of label rs k ∷ tail ≡ rows = cc h in
      ap (sum_of f) (sym same)
      ∙ ap (λ n. n + sum_of f tail) (free label rs k)
      ∙ ap (λ n. f (row_of label rs 0) + n) (each tail refl)

  pub sum_of-rows_of :
      (groups : Groups) (rows : List ClassRow)
      → rows_of groups ≡ some rows
      → sum_of f rows ≡ total (column f) groups
  sum_of-rows_of [] rows h = let same : [] ≡ rows = cc h in ap (sum_of f) (sym same)
  sum_of-rows_of ((label, rs) ∷ groups) rows h =
      sum_of-prepend label rs groups (try_count is_correct rs) (rows_of groups) rows
        (sum_of-rows_of groups) h

no_spoof :
    (label : String) (rs : List ResultRecord)
    → str_eq label "LIVE" ≡ true
    → count (is_spoof_to_live label) rs ≡ 0
no_spoof label [] e = refl
no_spoof label (r ∷ rs) e = let rest = no_spoof label rs e in ground (arith, e, rest)

all_spoof :
    (label : String) (rs : List ResultRecord)
    → str_eq label "LIVE" ≡ false
    → count (is_spoof_to_live label) rs ≡ count is_live rs
all_spoof label [] e = refl
all_spoof label (r ∷ rs) e = let rest = all_spoof label rs e in ground (arith, e, rest)

abbrev pub spoofed : String × List ResultRecord → ℕ
spoofed g = count (is_spoof_to_live g.0) g.1

spoofs :
    (label : String) (rs later : List ResultRecord) (n : ℕ)
    → count is_live later ≡ n
    → count is_live (if str_eq label "LIVE" then later else rs ++ later)
      ≡ count (is_spoof_to_live label) rs + n
spoofs label rs later n rest = elim (Bool-cases (str_eq label "LIVE")) [
  | inl e ↦ let own = no_spoof label rs e in ground (arith, e, rest, own)
  | inr e ↦
      let own = all_spoof label rs e in
      let both = count_++ is_live rs later in ground (arith, e, rest, own, both)
]

pub total-spoof_records :
    (groups : Groups) → count is_live (spoof_records groups) ≡ total spoofed groups
total-spoof_records [] = refl
total-spoof_records ((label, rs) ∷ groups) =
    spoofs label rs (spoof_records groups) (total spoofed groups) (total-spoof_records groups)

pub parts :
    (rs : List ResultRecord)
    → count is_conclusive rs + count is_uncertain rs + count is_error rs ≡ length rs
parts [] = refl
parts (r ∷ rs) = let rest = parts rs in ground (arith, rest)
