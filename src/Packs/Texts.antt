-- ===== src/Packs/Texts.antt =====
-- The functions of Go's library that packs are checked and brought into form by: texts by their
-- runes and bytes, the scheme and the host of a URL that parses, and numbers.
use sigame_server.Prelude.{Bool, List, Option, String, ℕ}
use sigame_server.Pack.{Float64}

pub record Texts : Type 0 where
  pub trim_space : String → String
  pub to_lower : String → String
  pub to_upper : String → String
  pub rune_count : String → ℕ
  pub bytes : String → List ℕ
  pub decimal : ℕ → String
  pub parse_url : String → Option (String × String)
  pub parse_float : String → Option Float64
  pub point_for_comma : String → String
  pub is_negative : Float64 → Bool
