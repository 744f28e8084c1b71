-- ===== src/Packs/Tests.antt =====
-- A small pack, checked and named.
use sigame_server.Prelude.{String, [], false, none, pos, refl, some, string_eq, true, ◌∷◌, ◌≡◌}
use sigame_server.Packs.Model.{Params, RawItem, RawPack, RawQuestion, is_media, is_slot}
use sigame_server.Packs.Texts.{Texts}
use sigame_server.Packs.Validate.{Code, problem}
use sigame_server.Pack.{Info}
use sigame_server.Packs.Question.{check_right}
use sigame_server.Packs.Rounds.{validate}
use sigame_server.Packs.Rounds.Valid.{sound_pack, validate_sound}
use sigame_server.Packs.Ids.{ensure_ids, reset_ids}
use sigame_server.Packs.Ids.Filled.{
  ensure_ids-kept, ensure_ids-named, named_pack, reset_ids-ensure_ids,
}
use sigame_server.Packs.Normalize.{normalize}
use sigame_server.Packs.Normalize.Canonical.{SamePack, canonical_pack, normalize-SamePack}
use sigame_server.Packs.Summary.{question_has_media, summarize}
use sigame_server.Packs.Summary.Totals.{summarize-totals}

instance abbrev plain_texts : Texts
plain_texts = record {
  trim_space = λ s. s;
  to_lower = λ s. s;
  to_upper = λ s. s;
  rune_count = λ s. 5;
  bytes = λ s. [];
  decimal = λ n. "0";
  parse_url = λ s. some ("https", s);
  parse_float = λ s. none;
  point_for_comma = λ s. s;
  is_negative = λ x. false;
}

abbrev no_info : Info
no_info = record { authors = []; sources = []; comments = ""; showman_comments = "" }

abbrev shown : RawItem
shown = record {
  type = "text";
  text = "Who?";
  media_id = "";
  url = "";
  placement = "screen";
  duration_ms = pos 0;
  no_wait = false;
}

abbrev asked : RawQuestion
asked = record {
  id = "";
  price = pos 100;
  type = "";
  params = record {
    question = shown ∷ [];
    answer = [];
    theme = "";
    price = none;
    selection_mode = "";
    answer_type = "select";
    answer_options =
        record { label = "A"; content = shown ∷ [] } ∷ record { label = "B"; content = [] } ∷ [];
    answer_deviation = 0;
    answer_duration_ms = pos 0;
  };
  right = "B" ∷ [];
  wrong = [];
  info = no_info;
  script = [];
  extra = Params.done;
}

abbrev sample : String → RawQuestion → RawPack
sample id q = record {
  id = id;
  name = "Pack";
  language = "en";
  difficulty = pos 5;
  restriction = "";
  date = "";
  publisher = "";
  contact_uri = "";
  logo_media_id = "";
  logo_url = "";
  tags = [];
  info = no_info;
  rounds =
      record {
        id = id;
        name = "";
        type = "final";
        info = no_info;
        themes = record { id = id; name = "T"; info = no_info; questions = q ∷ [] } ∷ [];
      }
      ∷ [];
  version = pos 1;
  created_at = pos 1;
  updated_at = pos 1;
}

-- A question of the type `select` needs a label as its right answer.
wrong_label : check_right [] asked.params ("C" ∷ []) ≡ problem ("right" ∷ "0" ∷ []) Code.mismatch
unfolding check_right
wrong_label = refl

validate_sound_example : sound_pack (sample "" asked) ≡ true
unfolding validate
validate_sound_example = validate_sound (sample "" asked) refl

ensure_ids-named_example : named_pack ((ensure_ids (λ n. "id") (sample "" asked) 0).0) ≡ true
ensure_ids-named_example = ensure_ids-named (λ n. "id") (λ n. refl) (sample "" asked) 0

ensure_ids-kept_example :
    ensure_ids (λ n. "id") (sample "p" (record asked { id = "q" })) 3
    ≡ (sample "p" (record asked { id = "q" }), 3)
ensure_ids-kept_example =
    ensure_ids-kept (λ n. "id") (sample "p" (record asked { id = "q" })) 3 refl

reset_ids-ensure_ids_example :
    reset_ids ((ensure_ids (λ n. "id") (sample "p" asked) 0).0) ≡ reset_ids (sample "p" asked)
reset_ids-ensure_ids_example = reset_ids-ensure_ids (λ n. "id") (sample "p" asked) 0

normalize-SamePack_example :
    (canonical_pack (normalize (sample "" asked)) ≡ true)
    × SamePack (sample "" asked) (normalize (sample "" asked))
normalize-SamePack_example = normalize-SamePack (sample "" asked)

summarize-totals_example :
    ((summarize (sample "" asked)).theme_count ≡ 1)
    × ((summarize (sample "" asked)).question_count ≡ 1)
    × ((summarize (sample "" asked)).has_media ≡ false)
unfolding is_slot question_has_media is_media
summarize-totals_example = summarize-totals (sample "" asked)
