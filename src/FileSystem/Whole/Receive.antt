-- ===== src/FileSystem/Whole/Receive.antt =====
-- `uploadFile` and the invariant.
use ilist.Base.{String, Bool, true, false, Option, none, some}
use ilist.Base.Exec.{Outside, Result, ok, err}
use ilist.Base.Keeps.{Keeps, Fair}
use ilist.Json.{Codec}
use ilist.FileSystem.Row.{EntryRow, FileStore}
use ilist.FileSystem.Entries.{Metadata}
use ilist.FileSystem.Whole.{IsWhole, flow, db_rules, entry_rules, operation_rules}
use ilist.FileSystem.Whole.Edit.{Keeps-require_folder, Keeps-ensure_name_available, Keeps-shown}
use ilist.FileSystem.Whole.Recover.{Keeps-reconcile}
use ilist.FileSystem.Receive.{
  FileUpload, activate_quietly, reserve, reserved, touched_or_not, touch_upload, reconcile_if,
  store_and_finalize, or_upload_failed, or_unfinalized, upload_file,
}

module _ (o : Outside FileStore) (codec : Codec) (stored : String → Metadata)
    (fair : Fair IsWhole o) where
  Keeps-activate_quietly :
      (operation_id phase : String)
      → Keeps IsWhole (activate_quietly o codec stored operation_id phase)
  unfolding activate_quietly
  Keeps-activate_quietly operation_id phase = search (flow, db_rules, operation_rules) depth 8

  Keeps-reserve :
      (id owner : String) (row : EntryRow) → Keeps IsWhole (reserve o codec stored id owner row)
  unfolding reserve
  Keeps-reserve id owner row =
      search (flow, db_rules, entry_rules, operation_rules, Keeps-activate_quietly) depth 14

  Keeps-reserved :
      (id owner : String) (r : Result (Unit {0}))
      → Keeps IsWhole (reserved o codec stored id owner r)
  unfolding reserved
  Keeps-reserved id owner (ok _) = search flow
  Keeps-reserved id owner (err e) = search (flow, db_rules, Keeps-activate_quietly) depth 12

  Keeps-touched_or_not : (r : Result Bool) → Keeps IsWhole (touched_or_not o codec stored r)
  Keeps-touched_or_not (ok b) = search flow
  Keeps-touched_or_not (err e) = search flow

  Keeps-touch_upload :
      (operation_id owner : String) → Keeps IsWhole (touch_upload o codec stored operation_id owner)
  unfolding touch_upload
  Keeps-touch_upload operation_id owner =
      search (flow, db_rules, operation_rules, Keeps-touched_or_not) depth 9

  Keeps-reconcile_if : (b : Bool) → Keeps IsWhole (reconcile_if o codec stored b)
  unfolding reconcile_if
  Keeps-reconcile_if false = search flow
  Keeps-reconcile_if true = search (flow, Keeps-reconcile)

  Keeps-store_and_finalize :
      (input : FileUpload) (owner key : String)
      → Keeps IsWhole (store_and_finalize o codec stored input owner key)
  unfolding store_and_finalize
  Keeps-store_and_finalize input owner key =
      search
        (
          flow, db_rules, entry_rules, Keeps-touch_upload, Keeps-activate_quietly,
          Keeps-reconcile_if,
        )
        depth 16

  Keeps-or_upload_failed :
      (id owner : String) (r : Result (Unit {0}))
      → Keeps IsWhole (or_upload_failed o codec stored id owner r)
  unfolding or_upload_failed
  Keeps-or_upload_failed id owner (ok _) = search flow
  Keeps-or_upload_failed id owner (err e) =
      search (flow, Keeps-activate_quietly, Keeps-reconcile) depth 10

  Keeps-or_unfinalized : (row : Option EntryRow) → Keeps IsWhole (or_unfinalized o codec stored row)
  unfolding or_unfinalized
  Keeps-or_unfinalized none = search flow
  Keeps-or_unfinalized (some row) = search (flow, Keeps-shown)

  pub Keeps-upload_file : (input : FileUpload) → Keeps IsWhole (upload_file o codec stored input)
  unfolding upload_file
  Keeps-upload_file input =
      search
        (
          flow, db_rules, Keeps-require_folder, Keeps-ensure_name_available, Keeps-reserve,
          Keeps-reserved, Keeps-store_and_finalize, Keeps-or_upload_failed, Keeps-or_unfinalized,
        )
        depth 24
