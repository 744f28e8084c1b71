-- ===== src/Packs/Question.antt =====
-- internal/packs/validate.go: the checks of a question.
use sigame_server.Prelude.{
  Bool, List, Option, String, [], any, false, if◌then◌else◌, length, ltb, ltb_ℤ, map, nat_beq,
  negsuc, none, not, pos, some, string_eq, suc, true, ℕ, ◌&&◌, ◌==◌, ◌||◌, ◌∷◌,
}
use sigame_server.Pack.{Float64}
use sigame_server.Packs.Model.{
  RawOption, RawParams, RawQuestion, ScriptStep, effective_type, is_slot,
}
use sigame_server.Packs.Texts.{Texts}
use sigame_server.Packs.Validate.{
  Code, Pointer, Problem, at_index, check_count, check_each, check_info, check_items, check_params,
  check_price, check_str, check_str_list, is_blank, problem, report, ◌also◌, ◌⟩◌,
}

abbrev pub has_label : List String → String → Bool
has_label labels label = any (λ l. l == label) labels

abbrev pub is_number : Option Float64 → Bool
is_number none = false
is_number (some x) = true

abbrev pub is_selection_mode : String → Bool
is_selection_mode s = is_blank s || s == "any" || s == "exceptCurrent"

abbrev pub is_answer_type : String → Bool
is_answer_type s =
    is_blank s || s == "text" || s == "select" || s == "number" || s == "point" || s == "client"

unfoldable pub is_answerless : RawQuestion → Bool
unfolding is_slot effective_type
is_answerless q = is_slot q || effective_type q == "secretNoQuestion"

module _ ⦃tx : Texts⦄ where
  abbrev pub label_key : String → String
  label_key label = tx.to_upper (tx.trim_space label)

  abbrev pub check_label : List String → Pointer → String → List Problem
  check_label labels path label =
      if is_blank label
      then problem path Code.required
      else if ltb 8 (tx.rune_count label)
      then problem path Code.too_long
      else report (has_label labels label) path Code.duplicate

  -- The options, each with the labels of those before it.
  unfoldable pub check_options : Pointer → List String → ℕ → List RawOption → List Problem
  unfolding check_count check_items
  check_options path labels i [] = []
  check_options path labels i (o ∷ os) =
      let label = label_key o.label in
      let rest = check_options path (label ∷ labels) (suc i) os in
      check_label labels (at_index path i ⟩ "label") label
      also check_count (at_index path i ⟩ "content") (length o.content) 30
      also check_items (at_index path i ⟩ "content") o.content
      also rest

  abbrev pub option_labels : List RawOption → List String
  option_labels options = map (λ o. label_key o.label) options

  unfoldable pub parse_number : String → Option Float64
  parse_number s = tx.parse_float (tx.trim_space (tx.point_for_comma s))

  -- The first right answer of a question that has one.
  unfoldable pub check_first_right : Pointer → RawParams → String → List Problem
  unfolding parse_number
  check_first_right path params first =
      if params.answer_type == "select"
      then report (ltb (length params.answer_options) 2) (path ⟩ "params" ⟩ "answerOptions")
          Code.too_few
        also report (not (has_label (option_labels params.answer_options) (label_key first)))
            (path ⟩ "right" ⟩ "0") Code.mismatch
      else if params.answer_type == "number"
      then report (not (is_number (parse_number first))) (path ⟩ "right" ⟩ "0") Code.invalid_value
      else []

  unfoldable pub check_right : Pointer → RawParams → List String → List Problem
  unfolding check_first_right
  check_right path params [] = problem (path ⟩ "right") Code.too_few
  check_right path params (first ∷ rest) = check_first_right path params first

  unfoldable pub check_content : Pointer → RawParams → Bool → List Problem
  unfolding check_count check_items check_str
  check_content path params answerless =
      check_count (path ⟩ "question") (length params.question) 30
      also report (nat_beq (length params.question) 0 && not answerless) (path ⟩ "question")
          Code.too_few
      also check_items (path ⟩ "question") params.question
      also check_count (path ⟩ "answer") (length params.answer) 30
      also check_items (path ⟩ "answer") params.answer
      also check_str (path ⟩ "theme") params.theme false 350

  unfoldable pub check_answer : Pointer → RawParams → List Problem
  unfolding check_price check_count check_options
  check_answer path params =
      check_price (path ⟩ "price") params.price
      also report (not (is_selection_mode params.selection_mode)) (path ⟩ "selectionMode")
          Code.invalid_value
      also report (not (is_answer_type params.answer_type)) (path ⟩ "answerType") Code.invalid_value
      also report (tx.is_negative params.answer_deviation) (path ⟩ "answerDeviation")
          Code.out_of_range
      also report (ltb_ℤ params.answer_duration_ms (pos 0)) (path ⟩ "answerDurationMs")
          Code.out_of_range
      also check_count (path ⟩ "answerOptions") (length params.answer_options) 30
      also check_options (path ⟩ "answerOptions") [] 0 params.answer_options

  unfoldable pub check_step : Pointer → ScriptStep → List Problem
  unfolding check_params
  check_step path step =
      report (is_blank (tx.trim_space step.type)) (path ⟩ "type") Code.required
      also check_params (path ⟩ "params") step.params 0

  unfoldable pub check_question : Pointer → RawQuestion → List Problem
  unfolding check_str check_info check_content check_answer check_str_list check_right check_count
      check_step check_params is_answerless
  check_question path q =
      report (ltb_ℤ q.price (negsuc 0)) (path ⟩ "price") Code.out_of_range
      also check_str (path ⟩ "type") q.type false 350
      also check_info (path ⟩ "info") q.info
      also check_content (path ⟩ "params") q.params (is_answerless q)
      also check_answer (path ⟩ "params") q.params
      also check_str_list (path ⟩ "right") q.right 30 1500
      also check_str_list (path ⟩ "wrong") q.wrong 30 1500
      also (if is_answerless q then [] else check_right path q.params q.right)
      also check_count (path ⟩ "script") (length q.script) 30
      also check_each check_step (path ⟩ "script") 0 q.script
      also check_params (path ⟩ "extraParams") q.extra 0
