-- ===== src/Selection/Rules.antt =====
-- src/tuntu/rules.py, and `RuleReason` and `Evaluation` of src/tuntu/models.py.
pub mod Accepts
use tuntu.Prelude.{
  ℕ, Bool, true, false, not, ◌&&◌, ◌||◌, Option, none, some, List, [], ◌∷◌, ◌++◌, any, first, keep,
  map, Text, codes, starts_with, is_empty, is_some, ltb, ◌==◌, nat_eq, list_eq, if◌then◌else◌,
}
use tuntu.Errors.{Result, ok, err, value_error}
use tuntu.Magnet.{strip}
use tuntu.Selection.Evidence.{TruthValue, yes_value, no_value, unknown_value, truth_beq}
use tuntu.Selection.Candidates.{
  Candidate, chinese_subtitles, uncensored, uhd, size_mb, seeders, search_text,
}

pub data RuleMode : Type 0 where
  any_mode only_mode exclude_mode : RuleMode

pub record RuleSet : Type 0 where
  pub chinese_subtitles : RuleMode
  pub uncensored : RuleMode
  pub uhd : RuleMode
  pub min_size_mb : Option ℕ
  pub max_size_mb : Option ℕ
  pub min_seeders : Option ℕ
  pub include_keywords : List Text
  pub exclude_keywords : List Text

-- Whether a bound is there and fails.
abbrev pub below : ℕ → Option ℕ → Bool
below n none = false
below n (some least) = ltb n least

abbrev pub above : ℕ → Option ℕ → Bool
above n none = false
above n (some most) = ltb most n

abbrev crossed : Option ℕ → Option ℕ → Bool
crossed none most = false
crossed (some least) most = above least most

-- `RuleSet(…)`. A bound below 0 has no value here.
unfoldable pub rule_set : RuleSet → Result RuleSet
rule_set r = if crossed r.min_size_mb r.max_size_mb then err value_error else ok r

pub record RuleReason : Type 0 where
  pub code : Text
  pub message : Text

pub record Evaluation : Type 0 where
  pub candidate : Candidate
  pub accepted : Bool
  pub reasons : List RuleReason

abbrev pub reason : Text → Text → RuleReason
reason code message = record { code = code; message = message }

-- `_evaluate_truth`
unfoldable pub evaluate_truth : Text → Text → RuleMode → TruthValue → List RuleReason
evaluate_truth name label any_mode value = []
evaluate_truth name label only_mode yes_value = []
evaluate_truth name label only_mode value =
    reason (name ++ codes "_required") (codes "仅接受已确认的" ++ label ++ codes "候选") ∷ []
evaluate_truth name label exclude_mode yes_value =
    reason (name ++ codes "_excluded") (codes "排除已确认的" ++ label ++ codes "候选") ∷ []
evaluate_truth name label exclude_mode value = []

abbrev pub when : Bool → RuleReason → List RuleReason
when true r = r ∷ []
when false r = []

abbrev size_known : Option ℕ → Option ℕ → Option ℕ → List RuleReason
size_known least most none = reason (codes "size_unknown") (codes "体积未知，无法证明满足体积规则") ∷ []
size_known least most (some n) =
    when (below n least) (reason (codes "size_below_min") (codes "体积低于最小值"))
    ++ when (above n most) (reason (codes "size_above_max") (codes "体积高于最大值"))

unfoldable pub evaluate_size : Option ℕ → Option ℕ → Option ℕ → List RuleReason
evaluate_size least most size =
    if is_some least || is_some most then size_known least most size else []

unfoldable pub evaluate_seeders : Option ℕ → Option ℕ → List RuleReason
evaluate_seeders none n = []
evaluate_seeders (some least) none = reason (codes "seeders_unknown") (codes "做种数未知，无法证明满足规则") ∷ []
evaluate_seeders (some least) (some n) =
    when (ltb n least) (reason (codes "seeders_below_min") (codes "做种数低于最小值"))

-- `value in text`
unfoldable pub occurs_in : Text → Text → Bool
occurs_in value [] = is_empty value
occurs_in value (c ∷ text) = let rest = occurs_in value text in starts_with (c ∷ text) value || rest

abbrev pub excluded : Option Text → List RuleReason
excluded none = []
excluded (some keyword) = reason (codes "keyword_excluded") (codes "标题命中排除关键词：" ++ keyword) ∷ []

-- `tuple(value.strip() for value in values if value.strip())`
abbrev pub trimmed : List Text → List Text
trimmed values = keep (λ t. not (is_empty t)) (map strip values)

module _ (casefold : Text → Text) where
  abbrev pub hits : Text → Text → Bool
  hits text keyword = occurs_in (casefold keyword) text

  unfoldable pub evaluate_keywords : List Text → List Text → Text → List RuleReason
  evaluate_keywords include_keywords exclude_keywords text =
      when (not (is_empty include_keywords) && not (any (hits text) include_keywords))
        (reason (codes "keyword_required") (codes "标题未命中任一必须包含关键词"))
      ++ excluded (first (hits text) exclude_keywords)

  -- The reasons, in the order in which they are found.
  unfoldable pub rule_reasons : RuleSet → Candidate → List RuleReason
  rule_reasons r c =
      evaluate_truth (codes "chinese_subtitles") (codes "中文字幕") r.chinese_subtitles
        (chinese_subtitles c)
      ++ (evaluate_truth (codes "uncensored") (codes "无码") r.uncensored (uncensored c)
          ++ (evaluate_truth (codes "uhd") (codes "UHD") r.uhd (uhd c)
              ++ (evaluate_size r.min_size_mb r.max_size_mb (size_mb c)
                  ++ (evaluate_seeders r.min_seeders (seeders c)
                      ++ evaluate_keywords (trimmed r.include_keywords) (trimmed r.exclude_keywords)
                          (casefold (search_text casefold c))))))

  unfoldable pub evaluate : RuleSet → Candidate → Evaluation
  unfolding rule_reasons
  evaluate r c =
      let reasons = rule_reasons r c in
      record { candidate = c; accepted = is_empty reasons; reasons = reasons }
