-- ===== src/FileSystem/Tests.antt =====
-- Runs of the file system on a small tree, and instances of its theorems.
use ilist.Base.{
  ℕ, ◌+◌, String, true, false, none, some, List, [], ◌∷◌, ◌≡◌, refl, arith, inl, inr, text_eq,
  if◌then◌else◌, Bool-cases, map,
}
use ilist.Base.Exec.{Exec, Outside, World, ok, err, throw, pure, failure, statement, ◌>>=◌}
use ilist.Json.{obj, end}
use ilist.FileSystem.Row.{
  EntryRow, OperationRow, FileStore, file, folder, ready, uploading, deleting, delete_tree, running,
}
use ilist.FileSystem.Entries.{Metadata, EntryPatch, set_fields}
use ilist.FileSystem.Tree.{IsTree, top, parent_of, is_beneath}
use ilist.FileSystem.Tree.Insert.{IsTree-insert}
use ilist.FileSystem.Tree.Fuel.{ancestor}
use ilist.FileSystem.Ancestors.{is_open, list_ancestor_rows, climb, is_effectively_public}
use ilist.FileSystem.Ancestors.Public.{is_effectively_public-ancestor}
use ilist.FileSystem.Errors.{
  known_code, batch, batch_each, distinct_ids, known_or_conflict, or_name_conflict,
  entry_name_conflict, has_unique_constraint,
}
use ilist.FileSystem.Edit.{
  get_entry_by_id, require_folder, require_mutable, checked_target, move_one, move_entries,
}
use ilist.FileSystem.Names.{
  validate_entry_name, is_valid_name, is_space, is_control, utf8_size, byte_length,
}
use ilist.FileSystem.Db.{read_entries}
use ilist.FileSystem.Store.{
  move_trigger, move_ready_entry, delete_deleting_entry, list_descendant_rows,
}
use ilist.FileSystem.Errors.Batch.{answers, batch-answers}
use ilist.FileSystem.Entries.Run.{finalize, mark, delete_uploading, run_owned}
use ilist.FileSystem.Entries.Run as entry_run
use ilist.FileSystem.Recovery.{may_claim, may_renew, is_claimed_by, set_renewed}
use ilist.FileSystem.Recovery.Run as recovery_run
use ilist.FileSystem.Recovery.Run.Leases.{run_claimed, run-may_claim, free_at}
use ilist.FileSystem.Store.{claim_entry_tree_for_deletion}
use ilist.FileSystem.Store.Claim.{claim_entry_tree_for_deletion-ancestor}
use ilist.FileSystem.Entries.{is_entry, set_deleting}
use ilist.FileSystem.Listing.{Texts, may_pass, walk_path, visible_to, resolve_entry_path}
use ilist.FileSystem.Listing.Visible.{resolve_entry_path-is_effectively_public}
use ilist.Base.{find_first}
use ilist.FileSystem.Ancestors.{are_open}
use ilist.FileSystem.Edit.{get_child_by_name}
use ilist.FileSystem.Rivals.{Write, among}
use ilist.FileSystem.Rivals as rivals
use ilist.FileSystem.Whole.{IsWhole}
use ilist.FileSystem.Whole.Requests.{
  Request, create, move, remove, Platform, handle_all, handle_all-IsWhole,
}

abbrev root : EntryRow
root = record {
  id = "root";
  parent_id = none;
  name = "";
  kind = folder;
  storage_key = none;
  size = 0;
  content_type = none;
  etag = none;
  status = ready;
  lifecycle_owner = none;
  is_public = 1;
  sort_order = 0;
  description = "";
  created_at = 0;
  updated_at = 0;
}

abbrev docs : EntryRow
docs = record root { id = "docs"; parent_id = some "root"; name = "Documents" }

abbrev letter : EntryRow
letter = record docs {
  id = "letter01";
  parent_id = some "docs";
  name = "letter.txt";
  kind = file;
  storage_key = some "blobs/letter01/w1";
  size = 20;
}

abbrev rows : List EntryRow
rows = letter ∷ docs ∷ root ∷ []

no_parent : (id : String) → parent_of (root ∷ []) id ≡ none
unfolding parent_of
no_parent id = elim (Bool-cases (text_eq "root" id)) [ inl e ↦ rw e | inr e ↦ rw e ]

root-IsTree : IsTree (root ∷ [])
root-IsTree = record {
  distinct = (refl, tt);
  closed = λ id p e. let f = no_parent id in absurd (cc);
  rooted = λ id. top (no_parent id);
}

rows-IsTree : IsTree rows
rows-IsTree =
    IsTree-insert letter (docs ∷ root ∷ []) "docs" refl
      (IsTree-insert docs (root ∷ []) "root" refl root-IsTree refl refl) refl refl

-- the folder cannot move into its letter, and the letter can move into the folder
two_moves :
    (move_trigger "docs" "letter01" rows ≡ some "entry cannot be moved beneath a descendant")
    × (move_trigger "letter01" "docs" rows ≡ none)
unfolding move_trigger is_beneath parent_of
two_moves = (refl, refl)

is_effectively_public-ancestor_example : is_open docs ≡ true
unfolding is_effectively_public ilist.FileSystem.Ancestors.list_ancestor_rows
    ilist.FileSystem.Ancestors.climb ilist.FileSystem.Ancestors.are_open ancestor parent_of
is_effectively_public-ancestor_example =
    is_effectively_public-ancestor "letter01" "docs" 1 docs rows refl refl refl

-- the second of three ids fails
abbrev fails_on_b : String → Exec ℕ ℕ
fails_on_b id = if text_eq id "b" then throw (failure "D1_ERROR") else pure 1

batch-answers_example :
    answers "a" (batch fails_on_b (known_code "MOVE_FAILED") ("a" ∷ "b" ∷ "a" ∷ []) 0).0 ≡ 1
batch-answers_example =
    batch-answers fails_on_b (known_code "MOVE_FAILED") "a" ("a" ∷ "b" ∷ "a" ∷ []) 0

abbrev metadata : Metadata
metadata = record { size = 20; content_type = none; etag = none }

abbrev uploading_letter : EntryRow
uploading_letter = record letter { status = uploading; lifecycle_owner = some "w1" }

abbrev strangers : List entry_run.Statement
strangers =
    finalize "w2" metadata 5
    ∷ mark "w3" 6
    ∷ entry_run.Statement.move "root" 7
    ∷ delete_uploading "w2"
    ∷ []

run_owned_example : entry_run.run strangers (some uploading_letter) ≡ some uploading_letter
run_owned_example =
    run_owned "w1" strangers uploading_letter (refl, (refl, (refl, (refl, tt)))) refl refl

abbrev running_operation : OperationRow
running_operation = record {
  id = "delete:docs:w1";
  entry_id = "docs";
  operation_kind = delete_tree;
  storage_key = none;
  attempt_owner = "w1";
  phase = "claim_tree";
  payload = "{}";
  state = running;
  claim_owner = some "worker1";
  claim_expires_at = some 900;
  attempts = 1;
  last_error = none;
  created_at = 100;
  updated_at = 100;
}

abbrev rival_statements : List recovery_run.Statement
rival_statements =
    recovery_run.claim "worker2" 1400 500
    ∷ recovery_run.Statement.complete "worker2" 600
    ∷ recovery_run.back_off "worker2" "failed" 700
    ∷ []

run_claimed_example : recovery_run.run rival_statements running_operation ≡ running_operation
run_claimed_example =
    run_claimed "worker1" 900 rival_statements running_operation
      ((omega arith, refl), ((omega arith, refl), ((omega arith, refl), tt)))
      (record { state = refl; holder = refl; until = refl })

abbrev progress_only : List recovery_run.Statement
progress_only = recovery_run.renew "worker1" 1000 800 ∷ []

run-may_claim_example : may_claim 400000 (recovery_run.run progress_only running_operation) ≡ true
unfolding recovery_run.run recovery_run.apply recovery_run.admits recovery_run.change free_at
    may_renew is_claimed_by set_renewed
run-may_claim_example =
    run-may_claim progress_only running_operation 400000 (refl, tt) refl (ground arith)

abbrev quiet : Outside FileStore
quiet = record {
  clock = λ n. 1000 + n;
  uuid = λ n. "new";
  others = λ n s. s;
  db_fails = λ n. false;
}

abbrev platform : Platform
platform = record {
  codec = record { parse = λ s. some (obj end); stringify = λ json. "{}" };
  etag_of = λ key. none;
  stored = λ key. metadata;
}

abbrev whole : World FileStore (Unit {0})
whole = record {
  table = record { entries = rows; operations = []; blobs = "blobs/letter01/w1" ∷ [] };
  tick = 0;
  calls = [];
}

-- others rename the folder before every step
abbrev schedule : ℕ → List Write
schedule n =
    rivals.Write.update "docs"
      (record { name = some "Papers"; description = none; sort_order = none; is_public = none }) n
    ∷ []

abbrev requests : List Request
requests = create "docs" "Old" ∷ move ("docs" ∷ []) "new" ∷ remove 1000 ("docs" ∷ []) ∷ []

handle_all-IsWhole_example :
    IsWhole (handle_all (among schedule quiet) platform requests whole).1.table
handle_all-IsWhole_example =
    handle_all-IsWhole quiet platform schedule requests whole
      (record { tree = rows-IsTree; exclusive = tt })

abbrev inner : EntryRow
inner = record docs { id = "inner"; parent_id = some "docs"; name = "Inner" }

-- a folder does not go beneath itself, and is not deleted before its children
moved_beneath :
    (move_ready_entry "docs" "inner" 5 (inner ∷ rows)).0
    ≡ err (failure "entry cannot be moved beneath a descendant")
unfolding move_ready_entry ilist.FileSystem.Store.move_trigger is_beneath parent_of
moved_beneath = refl

deleted_early :
    (delete_deleting_entry "docs" "w1"
      (letter ∷ record docs { status = deleting; lifecycle_owner = some "w1" } ∷ root ∷ [])).0
    ≡ err (failure "FOREIGN KEY constraint failed")
unfolding delete_deleting_entry ilist.FileSystem.Store.delete_entry
    ilist.FileSystem.Entries.is_deleting_by
deleted_early = refl

below : map (λ r. r.id) (list_descendant_rows "root" rows) ≡ "root" ∷ "docs" ∷ "letter01" ∷ []
unfolding list_descendant_rows ilist.FileSystem.Store.levels
below = refl

-- a move into the folder itself is answered, as failed
moved_into_itself :
    (move_entries quiet
      ("docs" ∷ [])
      "inner"
      (record whole { table = record whole.table { entries = inner ∷ rows } })).0
    ≡ ok (record { succeeded = []; failed = ("docs", "INVALID_MOVE_TARGET") ∷ [] })
unfolding move_entries require_folder read_entries statement get_entry_by_id ◌>>=◌ batch batch_each
    distinct_ids move_one require_mutable validate_entry_name is_valid_name checked_target
    list_ancestor_rows climb known_or_conflict or_name_conflict entry_name_conflict
    has_unique_constraint is_space is_control utf8_size byte_length
moved_into_itself = refl

claim_entry_tree_for_deletion-ancestor_example :
    find_first (is_entry "letter01") (claim_entry_tree_for_deletion "docs" "w1" 7 rows).1
    ≡ some (set_deleting "w1" 7 letter)
unfolding claim_entry_tree_for_deletion list_descendant_rows ilist.FileSystem.Store.levels ancestor
    parent_of
claim_entry_tree_for_deletion-ancestor_example =
    claim_entry_tree_for_deletion-ancestor "docs" "w1" "letter01" 7 1 letter rows rows-IsTree refl
      refl refl

abbrev plain_texts : Texts
plain_texts = record { trim = λ s. s; to_lower = λ s. s; encode_virtual_path = λ segments. "/" }

resolve_entry_path-is_effectively_public_example :
    is_effectively_public "letter01"
      (resolve_entry_path quiet plain_texts
        ("Documents" ∷ "letter.txt" ∷ [])
        false
        whole).1.table.entries
    ≡ true
unfolding resolve_entry_path walk_path visible_to may_pass read_entries statement ◌>>=◌
    get_entry_by_id get_child_by_name is_effectively_public list_ancestor_rows climb are_open
resolve_entry_path-is_effectively_public_example =
    resolve_entry_path-is_effectively_public quiet plain_texts ("Documents" ∷ "letter.txt" ∷ [])
      whole letter refl
