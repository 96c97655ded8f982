-- ===== src/Queue/Bound.antt =====
-- The identity of the file that a task uploads.
use ilist.Base.{
  ℕ, String, Bool, true, false, not, Option, none, some, List, [], ◌∷◌, ◌++◌, ◌≡◌, refl,
  Option-cases, ap, sym, ◌≤◌, arith, inl, inr, All, Bool-cases, keep, map, text_eq, is_text,
  if◌then◌else◌, ◌||◌, ◌&&◌, ◌==◌, eq_iff, is_number, eq_refl,
}
use ilist.Queue.Task.{
  LocalFile, UploadTask, TaskAction, started, session, part_confirmed, progress, pause, resume,
  finish, done, cancel, retry, release, fail, rebind, UploadAction, enqueue, remove,
  clear_completed, on_task,
}
use ilist.Queue.Reducer.{
  with_bytes, progressed, retried, rebound, bind_file, is_other_file, task_action, upload_reducer,
}

abbrev pub is_same_file : LocalFile → LocalFile → Bool
is_same_file f g = text_eq g.name f.name && g.size == f.size && g.last_modified == f.last_modified

-- The task expects the name, the size and the modification time of `f`, and holds a file with
-- these three unless it waits to be bound again.
abbrev pub is_for : LocalFile → UploadTask → Bool
is_for f task =
    is_text task.file_name f.name
    && is_number task.expected_size f.size
    && is_number task.expected_last_modified f.last_modified
    && (task.needs_rebind || is_same_file f task.the_file)

is_text-some : (o : Option String) (s : String) → is_text o s ≡ true → o ≡ some s
is_text-some none s e = cc
is_text-some (some t) s e = ap some ((eq_iff t s).0 e)

is_number-some : (o : Option ℕ) (n : ℕ) → is_number o n ≡ true → o ≡ some n
is_number-some none n e = cc
is_number-some (some m) n e = ground arith

module _ (f : LocalFile) (named : text_eq f.name "" ≡ false) (filled : 1 ≤ f.size) where
  retried-is_for : (task : UploadTask) → is_for f task ≡ true → is_for f (retried task) ≡ true
  unfolding retried
  retried-is_for task h = ground arith

  rebind-is_for :
      (g : LocalFile) (task : UploadTask)
      → is_for f task ≡ true
      → is_for f (task_action (rebind g) task) ≡ true
  unfolding task_action is_other_file bind_file rebound
  rebind-is_for g task h =
      let name = is_text-some task.file_name f.name (ground arith) in
      let size = is_number-some task.expected_size f.size (ground arith) in
      let time = is_number-some task.expected_last_modified f.last_modified (ground arith) in
      elim (Bool-cases (is_other_file g task)) [
        | inl other ↦ rw other h
        | inr fits ↦
            let e = rw (name, size, named) at fits in
            let same_name : g.name ≡ f.name = sym ((eq_iff f.name g.name).0 (ground arith)) in
            let same_size : g.size ≡ f.size = ground arith in
            elim (Bool-cases (g.last_modified == f.last_modified)) [
              | inl now ↦ rw (fits, time, now, same_name, eq_refl f.name, same_size) (ground arith)
              | inr other ↦ rw (fits, time, other) (ground arith)
            ]
      ]

  task_action-is_for :
      (a : TaskAction) (task : UploadTask)
      → is_for f task ≡ true
      → is_for f (task_action a task) ≡ true
  unfolding task_action with_bytes progressed
  task_action-is_for (started b) task h = h
  task_action-is_for (session i parts count bytes) task h = h
  task_action-is_for (part_confirmed n bytes) task h = h
  task_action-is_for (progress bytes total n count) task h = h
  task_action-is_for pause task h = h
  task_action-is_for resume task h = h
  task_action-is_for finish task h = h
  task_action-is_for done task h = h
  task_action-is_for cancel task h = h
  task_action-is_for retry task h = retried-is_for task h
  task_action-is_for release task h = h
  task_action-is_for (fail message) task h = h
  task_action-is_for (rebind g) task h = rebind-is_for g task h

keep-All :
    (P : UploadTask → Bool) (test : UploadTask → Bool) (ts : List UploadTask)
    → All (λ task. P task ≡ true) ts
    → All (λ task. P task ≡ true) (keep test ts)
keep-All P test [] h = tt
keep-All P test (t ∷ ts) (p, h) = elim (Bool-cases (test t)) [
  | inl hit ↦ rw hit (p, keep-All P test ts h)
  | inr miss ↦ rw miss (keep-All P test ts h)
]

append-All :
    (P : UploadTask → Bool) (ts us : List UploadTask)
    → All (λ task. P task ≡ true) ts
    → All (λ task. P task ≡ true) us
    → All (λ task. P task ≡ true) (ts ++ us)
append-All P [] us h k = k
append-All P (t ∷ ts) us (p, h) k = (p, append-All P ts us h k)

unfoldable pub reduce_all : List UploadTask → List UploadAction → List UploadTask
reduce_all ts [] = ts
reduce_all ts (a ∷ more) = reduce_all (upload_reducer ts a) more

-- if the task has that id, it is for the file
abbrev pub is_for_id : String → LocalFile → UploadTask → Bool
is_for_id id f task = not (text_eq task.id id) || is_for f task

-- every task of that id is for the file
abbrev pub AreFor : String → LocalFile → List UploadTask → Type 0
AreFor id f ts = All (λ task. is_for_id id f task ≡ true) ts

-- so are those that an action brings in
abbrev pub BringsFor : String → LocalFile → UploadAction → Type 0
BringsFor id f (enqueue more) = AreFor id f more
BringsFor id f _ = Unit {0}

module _ (id : String) (f : LocalFile) (named : text_eq f.name "" ≡ false)
    (filled : 1 ≤ f.size) where
  task_action_id : (a : TaskAction) (task : UploadTask) → (task_action a task).id ≡ task.id
  unfolding task_action with_bytes progressed retried bind_file rebound
      ilist.Queue.Reducer.restarted
  task_action_id (started b) task = refl
  task_action_id (session i parts count bytes) task = refl
  task_action_id (part_confirmed n bytes) task = refl
  task_action_id (progress bytes total n count) task = refl
  task_action_id pause task = refl
  task_action_id resume task = refl
  task_action_id finish task = refl
  task_action_id done task = refl
  task_action_id cancel task = refl
  task_action_id retry task = ground arith
  task_action_id release task = refl
  task_action_id (fail message) task = refl
  task_action_id (rebind g) task = elim (Option-cases task.expected_last_modified) [
    | inl unknown ↦ rw unknown (ground arith)
    | inr (m, known) ↦ rw known (ground arith)
  ]

  task_action-is_for_id :
      (a : TaskAction) (task : UploadTask)
      → is_for_id id f task ≡ true
      → is_for_id id f (task_action a task) ≡ true
  task_action-is_for_id a task h = elim (Bool-cases (text_eq task.id id)) [
    | inl own ↦
        let kept = task_action-is_for f named filled a task (ground arith) in
        rw (task_action_id a task, own) kept
    | inr other ↦ rw (task_action_id a task, other) refl
  ]

  map-AreFor :
      (target : String) (a : TaskAction) (ts : List UploadTask)
      → AreFor id f ts
      → AreFor id f (map (λ task. if text_eq task.id target then task_action a task else task) ts)
  map-AreFor target a [] h = tt
  map-AreFor target a (t ∷ ts) (p, h) = elim (Bool-cases (text_eq t.id target)) [
    | inl hit ↦ rw hit (task_action-is_for_id a t p, map-AreFor target a ts h)
    | inr miss ↦ rw miss (p, map-AreFor target a ts h)
  ]

  upload_reducer-AreFor :
      (ts : List UploadTask) (a : UploadAction)
      → BringsFor id f a
      → AreFor id f ts
      → AreFor id f (upload_reducer ts a)
  unfolding upload_reducer
  upload_reducer-AreFor ts (enqueue more) k h = append-All _ ts more h k
  upload_reducer-AreFor ts (remove target) k h = keep-All _ _ ts h
  upload_reducer-AreFor ts clear_completed k h = keep-All _ _ ts h
  upload_reducer-AreFor ts (on_task target a) k h = map-AreFor target a ts h

  -- A task keeps the identity of its file: let every task of an id expect the name, the size and the
  -- modification time of one file, whose name and size are not empty, and hold a file with these
  -- three unless it waits to be bound again, and let that hold of enqueued tasks of this id as well.
  -- Then it holds after any sequence of actions, whatever files the tasks are bound to.
  pub reduce_all-AreFor :
      (ts : List UploadTask) (actions : List UploadAction)
      → All (BringsFor id f) actions
      → AreFor id f ts
      → AreFor id f (reduce_all ts actions)
  unfolding reduce_all
  reduce_all-AreFor ts [] k h = h
  reduce_all-AreFor ts (a ∷ more) (k, ks) h =
      reduce_all-AreFor (upload_reducer ts a) more ks (upload_reducer-AreFor ts a k h)
