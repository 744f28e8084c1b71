-- ===== src/Packs/Model.antt =====
-- internal/packs/model.go: a pack as it comes in, before it is known to be valid. The types of
-- rounds, questions, answers and items are texts here, as in the source; the opaque `Extra` of a
-- pack is left out, and a `nil` list is an empty one.
use sigame_server.Prelude.{
  Bool, List, Option, String, if◌then◌else◌, ltb_ℤ, not, pos, string_eq, ℤ, ◌==◌,
}
use sigame_server.Pack.{Float64, Info, NumberSet}

pub record RawItem : Type 0 where
  pub type : String
  pub text : String
  pub media_id : String
  pub url : String
  pub placement : String
  pub duration_ms : ℤ
  pub no_wait : Bool

pub record RawOption : Type 0 where
  pub label : String
  pub content : List RawItem

-- A parameter and a list of parameters; the fields of `param` are those of the source in order.
mutual
  pub data Param : Type 0 where
    param : String → String → Bool → String → List RawItem → Params → Option NumberSet → Param

  pub data Params : Type 0 where
    done : Params
    more : Param → Params → Params

pub record ScriptStep : Type 0 where
  pub type : String
  pub params : Params

pub record RawParams : Type 0 where
  pub question : List RawItem
  pub answer : List RawItem
  pub theme : String
  pub price : Option NumberSet
  pub selection_mode : String
  pub answer_type : String
  pub answer_options : List RawOption
  pub answer_deviation : Float64
  pub answer_duration_ms : ℤ

pub record RawQuestion : Type 0 where
  pub id : String
  pub price : ℤ
  pub type : String
  pub params : RawParams
  pub right : List String
  pub wrong : List String
  pub info : Info
  pub script : List ScriptStep
  pub extra : Params

pub record RawTheme : Type 0 where
  pub id : String
  pub name : String
  pub info : Info
  pub questions : List RawQuestion

pub record RawRound : Type 0 where
  pub id : String
  pub name : String
  pub type : String
  pub info : Info
  pub themes : List RawTheme

pub record RawPack : Type 0 where
  pub id : String
  pub name : String
  pub language : String
  pub difficulty : ℤ
  pub restriction : String
  pub date : String
  pub publisher : String
  pub contact_uri : String
  pub logo_media_id : String
  pub logo_url : String
  pub tags : List String
  pub info : Info
  pub rounds : List RawRound
  pub version : ℤ
  pub created_at : ℤ
  pub updated_at : ℤ

unfoldable pub effective_type : RawQuestion → String
effective_type q = if q.type == "" then "simple" else q.type

unfoldable pub is_slot : RawQuestion → Bool
is_slot q = ltb_ℤ q.price (pos 0)

unfoldable pub is_media : RawItem → Bool
is_media it = not (it.type == "text")
