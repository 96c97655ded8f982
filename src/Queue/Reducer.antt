-- ===== src/Queue/Reducer.antt =====
-- `uploadReducer` of ui/features/uploads/upload-reducer.ts.
use ilist.Base.{
  ℕ, ◌+◌, ◌*◌, ◌/◌, min, max, String, Bool, true, false, not, Option, none, some, List, [], ◌∷◌,
  ◌++◌, ◌&&◌, ◌||◌, ◌==◌, ltb, leb, text_eq, is_text, if◌then◌else◌, map, keep, exists_in,
}
use ilist.Queue.Task.{
  UploadStatus, queued, creating, uploading, paused, completing, completed, failed, cancelled,
  Transport, single, multipart, LocalFile, UploadTask, TaskAction, started, session, part_confirmed,
  progress, pause, resume, finish, done, cancel, retry, release, fail, rebind, UploadAction,
  enqueue, remove, clear_completed, on_task,
}

-- `Math.round` of the exact quotient
unfoldable pub percent : ℕ → ℕ → ℕ
percent uploaded_bytes total_bytes =
    if total_bytes == 0
    then 100
    else (min uploaded_bytes total_bytes * 200 + total_bytes) / (2 * total_bytes)

abbrev pub given : {A : Type 0} → Option A → A → A
given none old = old
given (some a) old = a

abbrev either : {A : Type 0} → Option A → Option A → Option A
either none old = old
either (some a) old = some a

unfoldable pub still_paused : UploadStatus → UploadStatus
still_paused paused = paused
still_paused _ = uploading

unfoldable pub under_way : UploadStatus → UploadStatus
under_way queued = uploading
under_way creating = uploading
under_way status = status

-- `sort((a, b) => a - b)`
unfoldable pub insert_number : ℕ → List ℕ → List ℕ
insert_number n [] = n ∷ []
insert_number n (m ∷ ms) = let rest = insert_number n ms in if leb n m then n ∷ m ∷ ms else m ∷ rest

unfoldable pub sort_numbers : List ℕ → List ℕ
sort_numbers [] = []
sort_numbers (n ∷ ns) = insert_number n (sort_numbers ns)

-- `[...new Set(…)]`, which the sort puts in order: of equal numbers one stays
unfoldable pub distinct : List ℕ → List ℕ
distinct [] = []
distinct (n ∷ ns) =
    let rest = distinct ns in if exists_in (λ m. m == n) rest then rest else n ∷ rest

unfoldable pub confirmed : Option (List ℕ) → ℕ → List ℕ
unfolding distinct sort_numbers
confirmed parts n = sort_numbers (distinct (given parts [] ++ (n ∷ [])))

unfoldable pub with_bytes : ℕ → UploadTask → UploadTask
unfolding percent
with_bytes bytes task = record task {
  uploaded_bytes = max task.uploaded_bytes bytes;
  progress = percent (max task.uploaded_bytes bytes) task.the_file.size;
}

-- `action.totalBytes || task.file.size`
abbrev total_of : ℕ → UploadTask → ℕ
total_of total task = if total == 0 then task.the_file.size else total

unfoldable pub progressed : ℕ → ℕ → UploadTask → UploadTask
unfolding percent under_way
progressed bytes total task = record task {
  status = under_way task.status;
  uploaded_bytes = max task.uploaded_bytes (min bytes total);
  progress = max task.progress (percent (max task.uploaded_bytes (min bytes total)) total);
}

abbrev is_multipart : Transport → Bool
is_multipart single = false
is_multipart multipart = true

-- an empty text counts as absent
abbrev is_given : Option String → Bool
is_given none = false
is_given (some text) = not (text_eq text "")

unfoldable pub retried : UploadTask → UploadTask
retried task =
    if task.needs_rebind
    then task
    else (if is_multipart task.transport && is_given task.session_id && not task.restart_session
        then record task { status = queued; error = none }
        else record task { status = queued; uploaded_bytes = 0; progress = 0; error = none })

-- the file has another name or size than the task expects
unfoldable pub is_other_file : LocalFile → UploadTask → Bool
is_other_file f task =
    (is_given task.file_name && not (is_text task.file_name f.name))
    || (ltb 0 expected && not (f.size == expected))
  where
    expected : ℕ
    expected = given task.expected_size task.the_file.size

unfoldable pub rebound : LocalFile → UploadTask → UploadTask
rebound f task = record task {
  the_file = f;
  expected_size = some f.size;
  expected_last_modified = some f.last_modified;
  file_name = some f.name;
  needs_rebind = false;
  status = queued;
  error = none;
}

-- `mustRestart`
unfoldable pub restarted : UploadTask → UploadTask
restarted task = record task {
  session_id = none;
  uploaded_parts = some [];
  uploaded_bytes = 0;
  progress = 0;
  restart_session = true;
}

unfoldable pub bind_file : LocalFile → Option ℕ → UploadTask → UploadTask
unfolding rebound restarted
bind_file f none task = restarted (rebound f task)
bind_file f (some last_modified) task =
    if f.last_modified == last_modified
    then rebound f task
    else record task { error = some "FILE_IDENTITY_MISMATCH" }

unfoldable pub task_action : TaskAction → UploadTask → UploadTask
unfolding with_bytes progressed retried is_other_file bind_file still_paused confirmed
task_action (started is_multi) task = record task {
  status = if is_multi then creating else uploading;
  error = none;
}
task_action (session id parts count bytes) task = record (with_bytes bytes task) {
  status = still_paused task.status;
  session_id = some id;
  restart_session = false;
  uploaded_parts = some parts;
  part_count = some count;
}
task_action (part_confirmed n bytes) task = record (with_bytes bytes task) {
  status = still_paused task.status;
  uploaded_parts = some (confirmed task.uploaded_parts n);
}
task_action (progress bytes total n count) task =
    record (progressed bytes (total_of total task) task) {
      part_number = either n task.part_number;
      part_count = either count task.part_count;
    }
task_action pause task = record task { status = paused; error = none }
task_action resume task = record task { status = queued; error = none }
task_action finish task = record task {
  status = completing;
  uploaded_bytes = task.the_file.size;
  progress = 100;
  error = none;
}
task_action done task = record task {
  status = completed;
  uploaded_bytes = task.the_file.size;
  progress = 100;
  error = none;
}
task_action cancel task = record task { status = cancelled; error = none }
task_action retry task = retried task
task_action release task = task
task_action (fail message) task = record task { status = failed; error = some message }
task_action (rebind f) task =
    if is_other_file f task then task else bind_file f task.expected_last_modified task

abbrev is_completed : UploadStatus → Bool
is_completed completed = true
is_completed _ = false

unfoldable pub upload_reducer : List UploadTask → UploadAction → List UploadTask
upload_reducer tasks (enqueue more) = tasks ++ more
upload_reducer tasks (remove id) = keep (λ task. not (text_eq task.id id)) tasks
upload_reducer tasks clear_completed = keep (λ task. not (is_completed task.status)) tasks
upload_reducer tasks (on_task id action) =
    map (λ task. if text_eq task.id id then task_action action task else task) tasks
