-- ===== src/FileSystem/Names.antt =====
-- Entry names and storage keys: worker/entry-domain.ts, and `validateClientEntryId` of
-- worker/file-system.ts. A text is read by its code points.
use Prim.Native.Char.{code}
use Prim.Native.String.{String, ◌++◌ as ◌<>◌}
use ilist.Base.{
  ℕ, ◌+◌, Bool, not, Option, none, some, List, [], ◌∷◌, ◌&&◌, ◌||◌, ◌==◌, ltb, leb, text_eq,
  exists_in, if◌then◌else◌, length,
}
use ilist.Base.Exec.{Result, ok, err, http_error}

abbrev pub codes : String → List ℕ
codes String.[] = []
codes (String.◌∷◌ c s) = code c ∷ codes s

-- what `String.prototype.trim` removes: white space and line ends of ECMAScript
unfoldable pub is_space : ℕ → Bool
is_space c =
    (leb 9 c && leb c 13)
    || c == 32
    || c == 0xa0
    || c == 0x1680
    || (leb 0x2000 c && leb c 0x200a)
    || c == 0x2028
    || c == 0x2029
    || c == 0x202f
    || c == 0x205f
    || c == 0x3000
    || c == 0xfeff

-- CONTROL_CHARACTERS
unfoldable pub is_control : ℕ → Bool
is_control c = leb c 0x1f || c == 0x7f

-- the bytes of a code point in UTF-8
unfoldable pub utf8_size : ℕ → ℕ
utf8_size c = if ltb c 0x80 then 1 else if ltb c 0x800 then 2 else if ltb c 0x10000 then 3 else 4

unfoldable pub byte_length : List ℕ → ℕ
unfolding utf8_size
byte_length [] = 0
byte_length (c ∷ cs) = utf8_size c + byte_length cs

-- RESERVED_ROOT_NAMES
abbrev is_reserved : String → Bool
is_reserved name = text_eq name "api" || text_eq name "file" || text_eq name "admin"

unfoldable pub is_valid_name : String → Bool → Bool
unfolding is_space is_control byte_length
is_valid_name name top_level =
    exists_in (λ c. not (is_space c)) (codes name)
    && not (text_eq name ".")
    && not (text_eq name "..")
    && not (exists_in (λ c. c == 47) (codes name))
    && not (exists_in is_control (codes name))
    && leb (byte_length (codes name)) 255
    && not (top_level && is_reserved name)

unfoldable pub validate_entry_name : String → Bool → Result String
unfolding is_valid_name
validate_entry_name name top_level =
    if is_valid_name name top_level then ok name else err (http_error 400 "INVALID_ENTRY_NAME")

unfoldable pub storage_key_for_entry : String → Option String → String
storage_key_for_entry id none = "blobs/" <> id
storage_key_for_entry id (some attempt_owner) =
    if text_eq attempt_owner "" then "blobs/" <> id else ("blobs/" <> id) <> ("/" <> attempt_owner)

-- the characters of /^[A-Za-z0-9_-]{8,80}$/
abbrev is_id_character : ℕ → Bool
is_id_character c =
    (leb 65 c && leb c 90)
    || (leb 97 c && leb c 122)
    || (leb 48 c && leb c 57)
    || c == 95
    || c == 45

unfoldable pub validate_client_entry_id : String → Result String
validate_client_entry_id id =
    if leb 8 (length (codes id))
      && leb (length (codes id)) 80
      && not (exists_in (λ c. not (is_id_character c)) (codes id))
    then ok id
    else err (http_error 400 "INVALID_ENTRY_ID")
