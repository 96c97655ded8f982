-- ===== src/Upload/Service/Parts.antt =====
-- The arithmetic of parts in worker/upload-service.ts: which part lies where, which request fits
-- it, and when every part is there.
use Prim.Native.Char.{code}
use ilist.Base.{
  ℕ, ◌+◌, ◌-◌, ◌*◌, ◌/◌, min, String, Bool, true, false, Option, none, some, List, [], ◌∷◌, ◌&&◌,
  if◌then◌else◌, leb, ◌==◌, length,
}
use ilist.Base.Exec.{Result, ok, err}
use ilist.Json.{max_safe}
use ilist.Upload.Row.{CompletedUploadPart, UploadSessionRecord, StorageItem, is_open}
use ilist.Upload.Stored.{is_safe_integer, is_file, is_object}
use ilist.Upload.Provider.{ProviderUploadPartResult}
use ilist.Upload.Store.{found_part}
use ilist.Upload.Service.Errors.{upload_part_invalid, upload_incomplete, upload_expired}

pub record UploadPartView : Type 0 where
  pub part_number : ℕ
  pub size : ℕ

pub record ExpectedPart : Type 0 where
  pub offset : ℕ
  pub size : ℕ

-- `Math.ceil(size / partSize)`, for a part size above 0
unfoldable pub part_count : ℕ → ℕ → ℕ
part_count size part_size = (size + part_size - 1) / part_size

unfoldable pub expected_part : UploadSessionRecord → ℕ → Result ExpectedPart
unfolding part_count
expected_part r part_number =
    if is_safe_integer part_number 1 && leb part_number (part_count r.size r.part_size)
    then ok (record {
      offset = (part_number - 1) * r.part_size;
      size = min r.part_size (r.size - (part_number - 1) * r.part_size);
    })
    else err upload_part_invalid

is_digit : ℕ → Bool
is_digit c = leb b'0' c && leb c b'9'

decimal : ℕ → String → Option ℕ
unfolding is_digit
decimal acc String.[] = some acc
decimal acc (String.◌∷◌ c s) =
    let rest = decimal (acc * 10 + (code c - b'0')) s in if is_digit (code c) then rest else none

-- `/^(0|[1-9][0-9]*)$/` and `Number(…)`
unfoldable pub content_length : String → Option ℕ
unfolding decimal
content_length String.[] = none
content_length (String.◌∷◌ c String.[]) = decimal 0 (String.◌∷◌ c String.[])
content_length (String.◌∷◌ c (String.◌∷◌ d s)) =
    if code c == b'0' then none else decimal 0 (String.◌∷◌ c (String.◌∷◌ d s))

-- what `requirePartRequest` reads of the request
pub record PartRequest : Type 0 where
  pub content_length_header : Option String
  pub has_body : Bool

abbrev length_fits : Option ℕ → ℕ → Bool
length_fits none expected = false
length_fits (some n) expected = leb n max_safe && n == expected

abbrev header_fits : Option String → ℕ → Bool
header_fits none expected = false
header_fits (some s) expected = length_fits (content_length s) expected

unfoldable pub require_part_request : PartRequest → ℕ → Result (Unit {0})
require_part_request request expected_size =
    if header_fits request.content_length_header expected_size && request.has_body
    then ok tt
    else err upload_part_invalid

sized_part : Option CompletedUploadPart → ℕ → Result (Option UploadPartView)
sized_part none expected_size = ok none
sized_part (some part) expected_size =
    if part.size == expected_size
    then ok (some (record { part_number = part.part_number; size = part.size }))
    else err upload_part_invalid

unfoldable pub recorded_part : UploadSessionRecord → ℕ → ℕ → Result (Option UploadPartView)
unfolding sized_part
recorded_part r part_number expected_size =
    sized_part (found_part part_number r.parts) expected_size

abbrev valid_state : Option ilist.Json.Json → Bool
valid_state none = true
valid_state (some state) = is_object state

unfoldable pub valid_provider_part : ProviderUploadPartResult → ℕ → ℕ → Bool
valid_provider_part result part_number expected_size =
    result.part.part_number == part_number
    && result.part.size == expected_size
    && valid_state result.state

-- the loop of `requireCompleteParts`, from `index`
unfoldable pub parts_fit : ℕ → ℕ → ℕ → List CompletedUploadPart → Bool
parts_fit size part_size index [] = true
parts_fit size part_size index (part ∷ parts) =
    part.part_number == index + 1
    && part.size == min part_size (size - index * part_size)
    && parts_fit size part_size (index + 1) parts

unfoldable pub require_complete_parts : UploadSessionRecord → Result (Unit {0})
unfolding part_count parts_fit
require_complete_parts r =
    if length r.parts == part_count r.size r.part_size && parts_fit r.size r.part_size 0 r.parts
    then ok tt
    else err upload_incomplete

abbrev item_size_fits : Option ℕ → ℕ → Bool
item_size_fits none expected_size = true
item_size_fits (some n) expected_size = n == expected_size

unfoldable pub valid_completed_item : StorageItem → ℕ → Bool
valid_completed_item item expected_size =
    is_file item.kind && item_size_fits item.size expected_size

unfoldable pub is_expired : UploadSessionRecord → ℕ → Bool
is_expired r now = is_open r.status && leb r.expires_at now

unfoldable pub require_current : UploadSessionRecord → ℕ → Result (Unit {0})
unfolding is_expired
require_current r now = if is_expired r now then err upload_expired else ok tt
