-- ===== src/Json.antt =====
-- JSON values, as `JSON.parse` gives them. A number that is no natural number is kept as its text:
-- every check of the program on a stored number refuses it.
use ilist.Base.{ℕ, String, Bool, Option, none, some, if◌then◌else◌, text_eq}

mutual
  pub data Json : Type 0 where
    null : Json
    bool : Bool → Json
    num : ℕ → Json
    other_num : String → Json
    str : String → Json
    arr : Items → Json
    obj : Fields → Json

  pub data Items : Type 0 where
    nil : Items
    cons : Json → Items → Items

  pub data Fields : Type 0 where
    end : Fields
    field : String → Json → Fields → Fields

-- `value.key`; `none` is `undefined`
abbrev pub get : String → Fields → Option Json
get k end = none
get k (field j v fs) = if text_eq j k then some v else get k fs

-- `Number.MAX_SAFE_INTEGER`
abbrev pub max_safe : ℕ
max_safe = 9007199254740991

-- What the program uses of `JSON.parse` (`none`: it throws) and `JSON.stringify`.
pub record Codec : Type 0 where
  pub parse : String → Option Json
  pub stringify : Json → String
