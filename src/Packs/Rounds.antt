-- ===== src/Packs/Rounds.antt =====
-- internal/packs/validate.go: the checks of themes, of rounds and of a pack, which is never nil here.
pub mod Valid
use sigame_server.Prelude.{
  Bool, List, String, [], false, if◌then◌else◌, length, ltb_ℤ, nat_beq, not, pos, string_eq, true,
  ◌&&◌, ◌==◌, ◌||◌, ◌∷◌,
}
use sigame_server.Packs.Model.{RawPack, RawRound, RawTheme}
use sigame_server.Packs.Texts.{Texts}
use sigame_server.Packs.Validate.{
  Code, Pointer, Problem, check_count, check_each, check_info, check_str, check_str_list, check_url,
  is_blank, is_sha256_hex, report, ◌also◌, ◌⟩◌,
}
use sigame_server.Packs.Question.{check_question}

abbrev pub is_round_type : String → Bool
is_round_type s = is_blank s || s == "standard" || s == "final"

module _ ⦃tx : Texts⦄ where
  unfoldable pub check_theme : Bool → Pointer → RawTheme → List Problem
  unfolding check_str check_info check_count check_question
  check_theme final path t =
      check_str (path ⟩ "name") t.name false 350
      also check_info (path ⟩ "info") t.info
      also check_count (path ⟩ "questions") (length t.questions) 30
      also report (final && nat_beq (length t.questions) 0) (path ⟩ "questions") Code.too_few
      also check_each check_question (path ⟩ "questions") 0 t.questions

  unfoldable pub check_round : Pointer → RawRound → List Problem
  unfolding check_str check_info check_count check_theme
  check_round path r =
      check_str (path ⟩ "name") r.name false 350
      also report (not (is_round_type r.type)) (path ⟩ "type") Code.invalid_value
      also check_info (path ⟩ "info") r.info
      also check_count (path ⟩ "themes") (length r.themes) 30
      also check_each (check_theme (r.type == "final")) (path ⟩ "themes") 0 r.themes

  unfoldable pub check_logo : RawPack → List Problem
  unfolding is_sha256_hex check_url
  check_logo p =
      report (not (is_blank p.logo_media_id) && not (is_sha256_hex p.logo_media_id))
        ("logoMediaId" ∷ []) Code.invalid_value
      also (if is_blank p.logo_url
          then []
          else check_url ("logoUrl" ∷ []) p.logo_url
            also report (not (is_blank p.logo_media_id)) ("logoUrl" ∷ []) Code.unexpected)

  unfoldable pub check_heading : RawPack → List Problem
  unfolding check_str
  check_heading p =
      check_str ("name" ∷ []) p.name true 350
      also check_str ("language" ∷ []) p.language false 16
      also check_str ("restriction" ∷ []) p.restriction false 16
      also check_str ("date" ∷ []) p.date false 64
      also check_str ("publisher" ∷ []) p.publisher false 350
      also check_str ("contactUri" ∷ []) p.contact_uri false 1500

  unfoldable pub validate : RawPack → List Problem
  unfolding check_heading check_logo check_str_list check_info check_count check_round
  validate p =
      check_heading p
      also report (ltb_ℤ p.difficulty (pos 0) || ltb_ℤ (pos 10) p.difficulty) ("difficulty" ∷ [])
          Code.out_of_range
      also check_logo p
      also check_str_list ("tags" ∷ []) p.tags 10 350
      also check_info ("info" ∷ []) p.info
      also check_count ("rounds" ∷ []) (length p.rounds) 50
      also check_each check_round ("rounds" ∷ []) 0 p.rounds
