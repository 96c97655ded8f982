-- ===== src/Upload/Tests.antt =====
-- Runs of the upload store and service on small data, and instances of their theorems.
use ilist.Base.{
  ℕ, ◌+◌, ◌≤◌, ◌<◌, true, none, some, List, [], ◌∷◌, ◌≡◌, ◌≢◌, refl, arith, is_some, inr, text_eq,
  if◌then◌else◌,
}
use ilist.Base.Exec.{Outside, ok}
use ilist.Json.{obj, end, Codec}
use ilist.Upload.Row.{
  UploadSessionRow, UploadSessionRecord, CompletedUploadPart, StorageItem, active, completing,
  aborted, complete, abort, file,
}
use ilist.Upload.Check.{Cipher, is_stored_row}
use ilist.Upload.Encode.{parts_json, part_items, part_json}
use ilist.Upload.Stored.{parse_parts}
use ilist.Upload.PartList.{IsIncreasing, AllValid, parse_parts_sound}
use ilist.Upload.PartList.RoundTrip.{parse_parts-stringify, next_parts_sound}
use ilist.Upload.PartList.Lookup.{found_part-next_parts}
use ilist.Upload.Store.{found_part}
use ilist.Upload.Store.Parts.{next_parts}
use ilist.Upload.Run.{
  Statement, claim_part, record_part, release_part, claim_terminal, complete_session,
  release_terminal, mark_aborted, touch, accepts, run,
}
use ilist.Upload.Run.Leases.{HoldsPart, HoldsTerminal, run-HoldsPart, run-HoldsTerminal}
use ilist.Upload.Run.Final.{Agrees, run-Agrees, run_ended, run_item}
use ilist.Upload.Provider.{UploadTable, Provider}
use ilist.Upload.Service.Parts.{ExpectedPart, PartRequest, expected_part, require_complete_parts}
use ilist.Upload.Service.Tiling.{
  uploaded_bytes, require_complete_parts-uploaded_bytes, expected_part_within,
}
use ilist.Base.{◌==◌}
use ilist.Upload.Row.{CreateUploadSessionRecordInput, RecordUploadPartInput}
use ilist.Upload.Provider.{UploadWorld}
use ilist.Upload.Store.Safety.{IsSound, AllSound}
use ilist.Upload.Rivals.{Rivals, Proper, among}
use ilist.Upload.Service.Sound.{
  upload_resumable_part-AllSound, complete_resumable_upload-AllSound,
  abort_resumable_upload-AllSound, cleanup_expired_uploads-AllSound,
}
use ilist.Base.{true}
use ilist.Json.{field, num, str}
use ilist.Upload.Service.Create.{Creation, ExternalItem, create_resumable_upload}
use ilist.Upload.Service.Create.Sound.{create_resumable_upload-AllSound}
use ilist.Upload.Service.PartUpload.{upload_resumable_part}
use ilist.Upload.Service.Finish.{complete_resumable_upload}
use ilist.Upload.Service.Abort.{abort_resumable_upload, cleanup_expired_uploads}

abbrev fresh : UploadSessionRow
fresh = record {
  id = "s1";
  owner_session_id = "admin";
  mount_id = "m1";
  parent_item_id = "root";
  name = "film.mp4";
  size = 25;
  content_type = none;
  part_size = 10;
  provider_state_ciphertext = "sealed";
  parts_json = "[]";
  completed_item_json = none;
  status = active;
  active_part_number = none;
  active_part_expires_at = none;
  terminal_operation = none;
  terminal_owner = none;
  terminal_expires_at = none;
  cleanup_attempted_at = 0;
  expires_at = 5000;
  created_at = 100;
  updated_at = 100;
}

abbrev claimed_row : UploadSessionRow
claimed_row = record fresh { active_part_number = some 2; active_part_expires_at = some 900 }

abbrev aborting_row : UploadSessionRow
aborting_row = record fresh {
  terminal_operation = some abort;
  terminal_owner = some "w1";
  terminal_expires_at = some 900;
}

abbrev with_item : UploadSessionRow
with_item = record fresh { completed_item_json = some "item" }

abbrev rivals : List Statement
rivals =
    claim_part 1 1000 500
    ∷ claim_terminal abort "w2" 1000 600
    ∷ release_part 3 700 650
    ∷ mark_aborted "w2" 1000 700
    ∷ touch 800
    ∷ []

run-HoldsPart_example : HoldsPart 2 900 (run rivals claimed_row)
unfolding accepts is_stored_row
run-HoldsPart_example =
    run-HoldsPart 2 900 rivals claimed_row (ground arith) refl
      (record { open_row = refl; part = refl; until = refl })

run-HoldsTerminal_example : HoldsTerminal abort "w1" 900 (run rivals aborting_row)
unfolding accepts
run-HoldsTerminal_example =
    run-HoldsTerminal abort "w1" 900 rivals aborting_row (ground arith)
      (record { state = refl; operation = refl; holder = refl; until = refl })

fresh-Agrees : Agrees fresh
fresh-Agrees = record { no_item = λ e. refl; an_item = λ e. cc }

run-Agrees_example : Agrees (run rivals fresh)
run-Agrees_example = run-Agrees rivals fresh fresh-Agrees

run_ended_example :
    run rivals (record fresh { status = aborted }) ≡ record fresh { status = aborted }
run_ended_example = run_ended rivals (record fresh { status = aborted }) (inr refl)

run_item_example :
    (is_some (run rivals with_item).completed_item_json ≡ true)
    × ((run rivals with_item).status ≢ aborted)
run_item_example = run_item rivals with_item refl (λ e. cc)

-- a claim, its part and a completion
lifecycle :
    (run
      (claim_part 1 900 500
        ∷ record_part claimed_row "sealed" "[1]" none 1 900 510
        ∷ claim_terminal complete "w1" 1000 600
        ∷ [])
      fresh).status
    ≡ completing
unfolding run ilist.Upload.Run.apply ilist.Upload.Run.admits
    ilist.Upload.Statements.may_claim_terminal ilist.Upload.Statements.holds_part_claim
    ilist.Upload.Statements.may_claim_part ilist.Upload.Run.change
    ilist.Upload.Statements.set_part_claim ilist.Upload.Statements.unchanged_since
    ilist.Upload.Statements.set_part ilist.Upload.Statements.set_terminal_claim
lifecycle = refl

abbrev part : ℕ → ℕ → CompletedUploadPart
part n size = record { part_number = n; size = size; etag = none }

abbrev three_parts : List CompletedUploadPart
three_parts = part 1 10 ∷ part 2 10 ∷ part 3 5 ∷ []

abbrev session : UploadSessionRecord
session = record {
  id = "s1";
  owner_session_id = "admin";
  mount_id = "m1";
  parent_item_id = "root";
  name = "film.mp4";
  size = 25;
  content_type = none;
  part_size = 10;
  provider_state = obj end;
  parts = three_parts;
  completed_item = none;
  status = active;
  active_part_number = none;
  active_part_expires_at = none;
  terminal_operation = none;
  terminal_owner = none;
  terminal_expires_at = none;
  cleanup_attempted_at = 0;
  expires_at = 5000;
  created_at = 100;
  updated_at = 100;
}

require_complete_parts-uploaded_bytes_example : uploaded_bytes three_parts ≡ 25
unfolding require_complete_parts
require_complete_parts-uploaded_bytes_example =
    require_complete_parts-uploaded_bytes session (omega arith) refl

abbrev third : ExpectedPart
third = record { offset = 20; size = 5 }

abbrev second : ExpectedPart
second = record { offset = 10; size = 10 }

expected_part_within_example : (20 + 5 ≤ 25) × (0 < 5) × (5 ≤ 10)
unfolding expected_part
expected_part_within_example = expected_part_within session 3 third (omega arith) refl

-- one text only
abbrev codec : Codec
codec = record {
  parse = λ s. if text_eq s "parts" then some (parts_json three_parts) else none;
  stringify = λ j. "parts";
}

read_parts : parse_parts codec "parts" ≡ ok three_parts
unfolding parse_parts parts_json part_items part_json ilist.Upload.Stored.is_completed_upload_part
    ilist.Upload.Stored.insert_part
read_parts = refl

parse_parts_sound_example : IsIncreasing 0 three_parts × AllValid three_parts
parse_parts_sound_example = parse_parts_sound codec "parts" three_parts read_parts

parse_parts-stringify_example :
    parse_parts codec (codec.stringify (parts_json three_parts)) ≡ ok three_parts
parse_parts-stringify_example =
    parse_parts-stringify codec three_parts refl parse_parts_sound_example.0
      parse_parts_sound_example.1

next_parts_sound_example :
    IsIncreasing 0 (next_parts three_parts (part 4 1))
    × AllValid (next_parts three_parts (part 4 1))
unfolding ilist.Upload.Stored.is_valid_part
next_parts_sound_example =
    next_parts_sound three_parts (part 4 1) parse_parts_sound_example.0 parse_parts_sound_example.1
      refl

found_part-next_parts_example : found_part 2 (next_parts three_parts (part 4 1)) ≡ some (part 2 10)
unfolding ilist.Upload.Stored.has_number
found_part-next_parts_example =
    found_part-next_parts 2 three_parts (part 4 1) parse_parts_sound_example.0

abbrev cipher : Cipher
cipher = record { encrypt = λ n state context. "sealed"; decrypt = λ text context. some (obj end) }

abbrev finished : StorageItem
finished = record {
  id = "f1";
  parent_id = none;
  name = "film.mp4";
  kind = file;
  size = some 25;
  content_type = none;
  modified_at = none;
  etag = none;
}

abbrev provider : Provider
provider = record {
  get_mount = λ n id. ok (some "s3");
  create_driver = λ n id. ok true;
  upload_part = λ n call. ok (record { state = none; part = part 1 10; completed_item = none });
  complete = λ n call. ok finished;
  abort = λ n call. ok tt;
}

abbrev outside : Outside UploadTable
outside = record {
  clock = λ n. 500 + n;
  uuid = λ n. "w1";
  others = λ n t. t;
  db_fails = λ n. n == 7;
}

-- every row meets the rivals' statements before each statement of the request
abbrev busy : Rivals
busy = record { schedule = λ n row. rivals; kept = λ n row. true; inserted = λ n. fresh ∷ [] }

fresh-IsSound : IsSound fresh
unfolding is_stored_row
fresh-IsSound = record { stored = refl; agrees = fresh-Agrees }

busy-Proper : Proper busy
unfolding accepts
busy-Proper = record { scheduled = λ n row. ground arith; inserts = λ n. (fresh-IsSound, tt) }

abbrev world : UploadWorld
world = record { table = fresh ∷ []; tick = 0; calls = [] }

abbrev request : PartRequest
request = record { content_length_header = some "10"; has_body = true }

abbrev new_upload : CreateUploadSessionRecordInput
new_upload = record {
  mount_id = "m1";
  parent_item_id = "root";
  name = "film.mp4";
  size = 25;
  content_type = none;
  part_size = 10;
  provider_state = obj end;
  expires_at = 5000;
}

abbrev new_part : RecordUploadPartInput
new_part = record {
  claim_expires_at = 900;
  part = part 2 10;
  provider_state = obj end;
  completed_item = none;
}

upload_resumable_part-AllSound_example :
    AllSound
      (upload_resumable_part
        (among busy outside)
        codec
        cipher
        provider
        "admin"
        "s1"
        1
        request
        world).1.table
upload_resumable_part-AllSound_example =
    upload_resumable_part-AllSound outside codec cipher busy busy-Proper world (fresh-IsSound, tt)
      provider "admin" "s1" 1 request

complete_resumable_upload-AllSound_example :
    AllSound
      (complete_resumable_upload
        (among busy outside)
        codec
        cipher
        provider
        "admin"
        "s1"
        world).1.table
complete_resumable_upload-AllSound_example =
    complete_resumable_upload-AllSound outside codec cipher busy busy-Proper world
      (fresh-IsSound, tt) provider "admin" "s1"

abort_resumable_upload-AllSound_example :
    AllSound
      (abort_resumable_upload (among busy outside) codec cipher provider "admin" "s1" world).1.table
abort_resumable_upload-AllSound_example =
    abort_resumable_upload-AllSound outside codec cipher busy busy-Proper world (fresh-IsSound, tt)
      provider "admin" "s1"

cleanup_expired_uploads-AllSound_example :
    AllSound (cleanup_expired_uploads (among busy outside) codec cipher provider 10 world).1.table
cleanup_expired_uploads-AllSound_example =
    cleanup_expired_uploads-AllSound outside codec cipher busy busy-Proper world (fresh-IsSound, tt)
      provider 10

abbrev external_folder : ExternalItem
external_folder = record {
  mount_id = "m1";
  item_id = "root";
  driver_type = "s3";
  is_folder = true;
  has_adapter = true;
}

abbrev creation : Creation
creation = record {
  resolve_external_entry = λ n id. ok (some external_folder);
  create = λ n call. ok (obj (field "state" (obj end) (field "expiresAt" (num 5000) end)));
  encode_external_id = λ mount_id item_id. "ext_1";
}

create_resumable_upload-AllSound_example :
    AllSound
      (create_resumable_upload
        (among busy outside)
        codec
        cipher
        provider
        creation
        "admin"
        (obj (field "parentId" (str "ext_1") end))
        world).1.table
create_resumable_upload-AllSound_example =
    create_resumable_upload-AllSound outside codec cipher provider creation busy "admin"
      (obj (field "parentId" (str "ext_1") end)) world busy-Proper (λ n e. cc) (fresh-IsSound, tt)
