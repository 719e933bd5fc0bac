-- ===== src/Source/Dataset/Laws.antt =====
-- What the dataset detectors report and match.
use aibom_webhook_service.Base.{String, ◌≡◌, refl, true, Option, none, some, arith, eq_iff}
use aibom_webhook_service.Base.Text.{contains_char, after_last}
use aibom_webhook_service.Source.Dataset.{normal_name, dataset_names_match}

-- The match does not depend on which of the two names was detected and which declared.
pub dataset_names_match_comm :
    (a b : Option String) → dataset_names_match a b ≡ dataset_names_match b a
unfolding dataset_names_match
dataset_names_match_comm none none = refl
dataset_names_match_comm none (some b) = refl
dataset_names_match_comm (some a) none = refl
dataset_names_match_comm (some a) (some b) = ground (
  arith,
  eq_iff (normal_name a) (normal_name b),
  eq_iff (normal_name b) (normal_name a),
  eq_iff (after_last "/" (normal_name a)) (after_last "/" (normal_name b)),
  eq_iff (after_last "/" (normal_name b)) (after_last "/" (normal_name a)),
)

-- A match gives two names with the same last part, and if both have an organisation or a
-- directory, then equal names, up to case, outer white space and a slash at the end.
pub dataset_names_match_same :
    (a b : String)
    → dataset_names_match (some a) (some b) ≡ true
    → (after_last "/" (normal_name a) ≡ after_last "/" (normal_name b))
      × (contains_char "/" (normal_name a) ≡ true
          → contains_char "/" (normal_name b) ≡ true
          → normal_name a ≡ normal_name b)
unfolding dataset_names_match
dataset_names_match_same a b h = (
  ground (
    arith,
    h,
    eq_iff (normal_name a) (normal_name b),
    eq_iff (after_last "/" (normal_name a)) (after_last "/" (normal_name b)),
  ),
  ground (arith, h, eq_iff (normal_name a) (normal_name b)),
)
