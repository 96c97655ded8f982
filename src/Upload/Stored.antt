-- ===== src/Upload/Stored.antt =====
-- Reading a stored upload session: the checks and parsers of worker/upload-session-store.ts.
use ilist.Base.{
  ℕ, String, Bool, true, false, Option, none, some, List, [], ◌∷◌, ◌&&◌, if◌then◌else◌, text_eq,
  leb, ◌==◌, exists_in,
}
use ilist.Base.Maybe.{◌>>=◌}
use ilist.Base.Exec.{Result, ok, err, failure}
use ilist.Json.{Json, null, str, num, arr, obj, Items, nil, cons, Fields, get, max_safe, Codec}
use ilist.Upload.Row.{CompletedUploadPart, StorageItem, ItemKind, file}

abbrev pub is_object : Json → Bool
is_object (obj fs) = true
is_object _ = false

-- `isSafeInteger(value, minimum)` for a natural number
abbrev pub is_safe_integer : ℕ → ℕ → Bool
is_safe_integer value minimum = leb value max_safe && leb minimum value

-- the same on a value of JSON, which `undefined` fails
unfoldable pub safe_number : Option Json → ℕ → Option ℕ
safe_number (some (num n)) minimum = if is_safe_integer n minimum then some n else none
safe_number _ minimum = none

-- `isNullableString(value)`
unfoldable pub nullable_text : Option Json → Option (Option String)
nullable_text (some null) = some none
nullable_text (some (str s)) = some (some s)
nullable_text _ = none

unfoldable pub text : Option Json → Option String
text (some (str s)) = some s
text _ = none

unfoldable pub as_fields : Json → Option Fields
as_fields (obj fs) = some fs
as_fields _ = none

-- `isCompletedUploadPart`; further fields of the object are never read
unfoldable pub is_completed_upload_part : Json → Option CompletedUploadPart
unfolding as_fields safe_number nullable_text
is_completed_upload_part value = do
  fs ← as_fields value
  part_number ← safe_number (get "partNumber" fs) 1
  size ← safe_number (get "size" fs) 0
  etag ← nullable_text (get "etag" fs)
  some (record { part_number = part_number; size = size; etag = etag })

-- `assertCompletedUploadPart` on a part that the type checker knows to have its fields
unfoldable pub is_valid_part : CompletedUploadPart → Bool
is_valid_part part = is_safe_integer part.part_number 1 && is_safe_integer part.size 0

unfoldable pub item_kind : Option String → Option ItemKind
item_kind (some s) = if text_eq s "file" then some file else none
item_kind none = none

unfoldable pub nullable_size : Option Json → Option (Option ℕ)
unfolding safe_number
nullable_size (some null) = some none
nullable_size value = do n ← safe_number value 0; some (some n)

-- `isStorageItem`
unfoldable pub is_storage_item : Json → Option StorageItem
unfolding as_fields safe_number nullable_text text item_kind nullable_size
is_storage_item value = do
  fs ← as_fields value
  id ← text (get "id" fs)
  parent_id ← nullable_text (get "parentId" fs)
  name ← text (get "name" fs)
  kind ← item_kind (text (get "kind" fs))
  size ← nullable_size (get "size" fs)
  content_type ← nullable_text (get "contentType" fs)
  modified_at ← nullable_text (get "modifiedAt" fs)
  etag ← nullable_text (get "etag" fs)
  some (record {
    id = id;
    parent_id = parent_id;
    name = name;
    kind = kind;
    size = size;
    content_type = content_type;
    modified_at = modified_at;
    etag = etag;
  })

abbrev pub is_file : ItemKind → Bool
is_file file = true
is_file _ = false

-- `assertStorageItem` on an item that the type checker knows to have its fields
unfoldable pub is_valid_item : StorageItem → Bool
is_valid_item item =
    is_file item.kind && elim item.size [ none ↦ true | some n ↦ is_safe_integer n 0 ]

-- `parts.sort((left, right) => left.partNumber - right.partNumber)`, which is stable
unfoldable pub insert_part :
    CompletedUploadPart → List CompletedUploadPart → List CompletedUploadPart
insert_part part [] = part ∷ []
insert_part part (p ∷ ps) =
    if leb part.part_number p.part_number then part ∷ p ∷ ps else p ∷ insert_part part ps

unfoldable pub sort_parts : List CompletedUploadPart → List CompletedUploadPart
sort_parts [] = []
sort_parts (p ∷ ps) = insert_part p (sort_parts ps)

-- `parts.find((part) => part.partNumber === number)`
unfoldable pub has_number : ℕ → CompletedUploadPart → Bool
has_number n part = part.part_number == n

-- the loop of `parseParts`; `seen` holds the part numbers so far
unfoldable pub collect_parts : List ℕ → Items → Option (List CompletedUploadPart)
collect_parts seen nil = some []
collect_parts seen (cons j rest) = elim (is_completed_upload_part j) [
  | none ↦ none
  | some part ↦
      if exists_in (λ n. n == part.part_number) seen
      then none
      else do parts ← collect_parts (part.part_number ∷ seen) rest; some (part ∷ parts)
]

unfoldable pub or_invalid : {A : Type 0} → String → Option A → Result A
or_invalid message none = err (failure message)
or_invalid message (some a) = ok a

unfoldable pub parsed_parts : Option Json → Option (List CompletedUploadPart)
unfolding collect_parts
parsed_parts (some (arr items)) = collect_parts [] items
parsed_parts _ = none

unfoldable pub parse_parts : Codec → String → Result (List CompletedUploadPart)
unfolding parsed_parts sort_parts or_invalid
parse_parts codec value =
    or_invalid "Stored upload session parts are invalid"
      do parts ← parsed_parts (codec.parse value); some (sort_parts parts)

unfoldable pub parse_completed_item : Codec → Option String → Result (Option StorageItem)
unfolding or_invalid is_storage_item
parse_completed_item codec none = ok none
parse_completed_item codec (some value) =
    or_invalid "Stored upload session completed item is invalid"
      do json ← codec.parse value; item ← is_storage_item json; some (some item)
