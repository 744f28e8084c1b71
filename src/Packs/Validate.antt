-- ===== src/Packs/Validate.antt =====
-- internal/packs/validate.go: every problem of a pack. A JSON pointer is the list of its segments, and the
-- message of a problem is left out; `[]` stands for the `nil` that a valid pack is answered with.
use sigame_server.Prelude.{
  Bool, List, Option, String, [], all, false, if◌then◌else◌, leb, length, ltb, ltb_ℤ, nat_beq, none,
  not, pos, some, string_eq, suc, true, ℕ, ◌&&◌, ◌++◌, ◌==◌, ◌||◌, ◌∷◌,
}
use sigame_server.Packs.Texts.{Texts}
use sigame_server.Pack.{Info, NumberSet}
use sigame_server.Packs.Model.{Param, Params, RawItem}

pub data Code : Type 0 where
  required too_long too_many too_few invalid_value out_of_range unexpected duplicate mismatch
        media_not_found :
      Code

abbrev pub Pointer : Type 0
Pointer = List String

pub record Problem : Type 0 where
  pub path : Pointer
  pub code : Code

abbrev pub problem : Pointer → Code → List Problem
problem path code = record { path = path; code = code } ∷ []

-- `v.add` under a condition.
abbrev pub report : Bool → Pointer → Code → List Problem
report true path code = problem path code
report false path code = []

-- The problems of one check and then those of the next.
infixr 55 ◌also◌
abbrev pub ◌also◌ : List Problem → List Problem → List Problem
ps also qs = ps ++ qs

abbrev pub is_blank : String → Bool
is_blank s = s == ""

unfoldable pub check_count : Pointer → ℕ → ℕ → List Problem
check_count path n top = report (ltb top n) path Code.too_many

-- A child of a path.
infixl 60 ◌⟩◌
abbrev pub ◌⟩◌ : Pointer → String → Pointer
path ⟩ segment = path ++ segment ∷ []

module _ ⦃tx : Texts⦄ where
  abbrev pub at_index : Pointer → ℕ → Pointer
  at_index path i = path ⟩ tx.decimal i

  -- The checks of the elements of a list, each with its path.
  abbrev pub check_each {ℓ} :
      {A : Type ℓ} → (Pointer → A → List Problem) → Pointer → ℕ → List A → List Problem
  check_each check path i [] = []
  check_each check path i (x ∷ xs) = check (at_index path i) x also check_each check path (suc i) xs

  unfoldable pub check_str : Pointer → String → Bool → ℕ → List Problem
  check_str path s needed top =
      if needed && is_blank (tx.trim_space s)
      then problem path Code.required
      else report (ltb top (tx.rune_count s)) path Code.too_long

  unfoldable pub plain_str : ℕ → Pointer → String → List Problem
  unfolding check_str
  plain_str top path s = check_str path s false top

  unfoldable pub check_str_list : Pointer → List String → ℕ → ℕ → List Problem
  unfolding check_count plain_str
  check_str_list path list max_items top =
      check_count path (length list) max_items also check_each (plain_str top) path 0 list

  abbrev pub web_url : Option (String × String) → Bool
  web_url none = false
  web_url (some (scheme, host)) = (scheme == "http" || scheme == "https") && not (is_blank host)

  unfoldable pub check_url : Pointer → String → List Problem
  check_url path s =
      if ltb 1500 (tx.rune_count s)
      then problem path Code.too_long
      else report (not (web_url (tx.parse_url s))) path Code.invalid_value

  -- 0 to 9 and a to f.
  abbrev pub hex_digit : ℕ → Bool
  hex_digit c = leb 48 c && leb c 57 || leb 97 c && leb c 102

  unfoldable pub is_sha256_hex : String → Bool
  is_sha256_hex s = nat_beq (length (tx.bytes s)) 64 && all hex_digit (tx.bytes s)

  unfoldable pub check_info : Pointer → Info → List Problem
  unfolding check_str_list check_str
  check_info path info =
      check_str_list (path ⟩ "authors") info.authors 10 350
      also check_str_list (path ⟩ "sources") info.sources 10 350
      also check_str (path ⟩ "comments") info.comments false 1500
      also check_str (path ⟩ "showmanComments") info.showman_comments false 1500

  abbrev pub check_text_item : Pointer → RawItem → List Problem
  check_text_item path it =
      (if is_blank (tx.trim_space it.text)
        then problem (path ⟩ "text") Code.required
        else report (ltb 1500 (tx.rune_count it.text)) (path ⟩ "text") Code.too_long)
      also report (not (is_blank it.media_id)) (path ⟩ "mediaId") Code.unexpected
      also report (not (is_blank it.url)) (path ⟩ "url") Code.unexpected

  unfoldable pub check_media_item : Pointer → RawItem → List Problem
  unfolding is_sha256_hex check_url
  check_media_item path it =
      (if is_blank it.media_id && is_blank it.url
        then problem (path ⟩ "mediaId") Code.required
        else report (not (is_blank it.media_id) && not (is_blank it.url)) (path ⟩ "url")
            Code.unexpected)
      also report (not (is_blank it.media_id) && not (is_sha256_hex it.media_id)) (path ⟩ "mediaId")
          Code.invalid_value
      also (if is_blank it.url then [] else check_url (path ⟩ "url") it.url)
      also report (not (is_blank it.text)) (path ⟩ "text") Code.unexpected

  abbrev pub is_media_type : String → Bool
  is_media_type t = t == "image" || t == "audio" || t == "video" || t == "html"

  abbrev pub check_placement : Pointer → RawItem → List Problem
  check_placement path it =
      if is_blank it.placement || it.placement == "screen"
      then []
      else if it.placement == "replic"
      then report (not (it.type == "text")) (path ⟩ "placement") Code.mismatch
      else if it.placement == "background"
      then report (not (it.type == "audio")) (path ⟩ "placement") Code.mismatch
      else problem (path ⟩ "placement") Code.invalid_value

  unfoldable pub check_item : Pointer → RawItem → List Problem
  unfolding check_media_item
  check_item path it =
      (if it.type == "text"
        then check_text_item path it
        else if is_media_type it.type
        then check_media_item path it
        else problem (path ⟩ "type") Code.invalid_value)
      also check_placement path it
      also report (ltb_ℤ it.duration_ms (pos 0)) (path ⟩ "durationMs") Code.out_of_range

  unfoldable pub check_items : Pointer → List RawItem → List Problem
  unfolding check_item
  check_items path items = check_each check_item path 0 items

  unfoldable pub check_number_set : Pointer → NumberSet → List Problem
  check_number_set path ns =
      report (ltb_ℤ ns.min (pos 0)) (path ⟩ "min") Code.out_of_range
      also report (ltb_ℤ ns.max (pos 0)) (path ⟩ "max") Code.out_of_range
      also report (ltb_ℤ ns.step (pos 0)) (path ⟩ "step") Code.out_of_range
      also report (ltb_ℤ ns.max ns.min) (path ⟩ "min") Code.mismatch

  unfoldable pub check_price : Pointer → Option NumberSet → List Problem
  unfolding check_number_set
  check_price path none = []
  check_price path (some ns) = check_number_set path ns

  abbrev pub count_params : Params → ℕ
  count_params Params.done = 0
  count_params (Params.more p ps) = suc (count_params ps)

  abbrev pub max_param_depth : ℕ
  max_param_depth = 8

  -- The number of a list of parameters; below the greatest depth, also the parameters themselves.
  unfoldable pub within_depth : Pointer → Params → ℕ → List Problem → List Problem
  unfolding check_count
  within_depth path ps depth inner =
      check_count path (count_params ps) 30
      also (if ltb max_param_depth depth then problem path Code.invalid_value else inner)

  unfoldable pub check_params_from : Pointer → ℕ → Params → ℕ → List Problem
  unfolding check_items check_price within_depth
  check_params_from path i Params.done depth = []
  check_params_from path i (Params.more (Param.param name type is_ref value items nested ns) rest)
        depth =
      let inner = check_params_from (at_index path i ⟩ "params") 0 nested (suc depth) in
      let others = check_params_from path (suc i) rest depth in
      report (is_blank (tx.trim_space name)) (at_index path i ⟩ "name") Code.required
      also check_count (at_index path i ⟩ "items") (length items) 30
      also check_items (at_index path i ⟩ "items") items
      also check_price (at_index path i ⟩ "numberSet") ns
      also within_depth (at_index path i ⟩ "params") nested (suc depth) inner
      also others

  unfoldable pub check_params : Pointer → Params → ℕ → List Problem
  unfolding check_params_from within_depth
  check_params path ps depth = within_depth path ps depth (check_params_from path 0 ps depth)
