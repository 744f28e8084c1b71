-- ===== src/Packs/Normalize.antt =====
-- internal/packs/normalize.go: the canonical form of a pack. A `nil` list is an empty one here, so
-- the steps that put an empty list for it do nothing.
pub mod Canonical
use sigame_server.Prelude.{
  List, String, [], if◌then◌else◌, int_eq, map, pos, string_eq, ℤ, ◌&&◌, ◌==◌, ◌∷◌,
}
use sigame_server.Pack.{Info}
use sigame_server.Packs.Model.{
  Param, Params, RawItem, RawOption, RawPack, RawParams, RawQuestion, RawRound, RawTheme,
  ScriptStep,
}
use sigame_server.Packs.Texts.{Texts}

module _ ⦃tx : Texts⦄ where
  unfoldable pub clean_list : List String → List String
  clean_list [] = []
  clean_list (s ∷ ss) =
      let rest = clean_list ss in if tx.trim_space s == "" then rest else tx.trim_space s ∷ rest

  unfoldable pub normalize_info : Info → Info
  unfolding clean_list
  normalize_info info = record info {
    authors = clean_list info.authors;
    sources = clean_list info.sources;
  }

  unfoldable pub normalize_item : RawItem → RawItem
  normalize_item it = record it {
    media_id = tx.to_lower (tx.trim_space it.media_id);
    url = tx.trim_space it.url;
  }

  unfoldable pub normalize_items : List RawItem → List RawItem
  unfolding normalize_item
  normalize_items items = map normalize_item items

  unfoldable pub normalize_params : Params → Params
  unfolding normalize_items
  normalize_params Params.done = Params.done
  normalize_params (Params.more (Param.param name type is_ref value items nested ns) rest) =
      let inner = normalize_params nested in
      let others = normalize_params rest in
      Params.more (Param.param name type is_ref value (normalize_items items) inner ns) others

  unfoldable pub normalize_option : RawOption → RawOption
  unfolding normalize_items
  normalize_option o = record o {
    label = tx.to_upper (tx.trim_space o.label);
    content = normalize_items o.content;
  }

  unfoldable pub normalize_right : List String → List String
  normalize_right [] = "" ∷ []
  normalize_right (s ∷ ss) = map tx.trim_space (s ∷ ss)

  unfoldable pub normalize_type : String → String
  normalize_type s = if tx.trim_space s == "" then "simple" else tx.trim_space s

  unfoldable pub normalize_step : ScriptStep → ScriptStep
  unfolding normalize_params
  normalize_step step = record step { params = normalize_params step.params }

  unfoldable pub normalize_raw_params : RawParams → RawParams
  unfolding normalize_items normalize_option
  normalize_raw_params ps = record ps {
    question = normalize_items ps.question;
    answer = normalize_items ps.answer;
    theme = tx.trim_space ps.theme;
    answer_options = map normalize_option ps.answer_options;
  }

  unfoldable pub normalize_question : RawQuestion → RawQuestion
  unfolding normalize_type normalize_info normalize_raw_params normalize_right normalize_step
      normalize_params
  normalize_question q = record q {
    type = normalize_type q.type;
    info = normalize_info q.info;
    params = normalize_raw_params q.params;
    right = normalize_right q.right;
    wrong = map tx.trim_space q.wrong;
    script = map normalize_step q.script;
    extra = normalize_params q.extra;
  }

  unfoldable pub normalize_theme : RawTheme → RawTheme
  unfolding normalize_info normalize_question
  normalize_theme t = record t {
    name = tx.trim_space t.name;
    info = normalize_info t.info;
    questions = map normalize_question t.questions;
  }

  unfoldable pub normalize_round : RawRound → RawRound
  unfolding normalize_info normalize_theme
  normalize_round r = record r {
    name = tx.trim_space r.name;
    type = if r.type == "" then "standard" else r.type;
    info = normalize_info r.info;
    themes = map normalize_theme r.themes;
  }

  -- The difficulty, with 5 for a zero of a pack that was never stored.
  unfoldable pub default_difficulty : RawPack → ℤ
  default_difficulty p =
      if p.difficulty == pos 0 && p.version == pos 0 && p.created_at == pos 0
      then pos 5
      else p.difficulty

  unfoldable pub normalize : RawPack → RawPack
  unfolding clean_list default_difficulty normalize_info normalize_round
  normalize p = record p {
    name = tx.trim_space p.name;
    language = tx.trim_space p.language;
    restriction = tx.trim_space p.restriction;
    date = tx.trim_space p.date;
    publisher = tx.trim_space p.publisher;
    contact_uri = tx.trim_space p.contact_uri;
    logo_media_id = tx.to_lower (tx.trim_space p.logo_media_id);
    logo_url = tx.trim_space p.logo_url;
    tags = clean_list p.tags;
    difficulty = default_difficulty p;
    info = normalize_info p.info;
    rounds = map normalize_round p.rounds;
  }
