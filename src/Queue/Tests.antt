-- ===== src/Queue/Tests.antt =====
-- The upload queue on one task that was restored from the server.
use ilist.Base.{arith, true, false, none, some, List, [], ◌∷◌, ◌≡◌, refl, ◌||◌, ◌==◌}
use ilist.Queue.Task.{
  LocalFile, UploadTask, paused, multipart, pause, rebind, UploadAction, enqueue, clear_completed,
  on_task,
}
use ilist.Queue.Reducer.{percent, confirmed}
use ilist.Queue.PartSet.{IsRising, has, confirmed-IsRising}
use ilist.Queue.Bound.{AreFor, reduce_all, reduce_all-AreFor}

abbrev film : LocalFile
film = record { name = "film.mp4"; size = 25; last_modified = 77 }

abbrev restored : UploadTask
restored = record {
  id = "u1";
  parent_id = "root";
  the_file = record film { last_modified = 0 };
  status = paused;
  transport = multipart;
  uploaded_bytes = 20;
  progress = 80;
  session_id = some "s1";
  part_number = none;
  part_count = some 3;
  uploaded_parts = some (2 ∷ 1 ∷ []);
  needs_rebind = true;
  file_name = some "film.mp4";
  expected_size = some 25;
  expected_last_modified = none;
  restart_session = false;
  error = none;
}

two_thirds : percent 2 3 ≡ 67
unfolding percent
two_thirds = refl

confirmed-IsRising_example :
    IsRising (confirmed (some (2 ∷ 1 ∷ [])) 3)
    × (has 3 (confirmed (some (2 ∷ 1 ∷ [])) 3) ≡ (has 3 (2 ∷ 1 ∷ []) || (3 == 3)))
confirmed-IsRising_example = confirmed-IsRising (some (2 ∷ 1 ∷ [])) 3 3

-- the task knows the time of its film
abbrev waiting : UploadTask
waiting = record restored { expected_last_modified = some 77 }

abbrev rebinding : List UploadAction
rebinding =
    on_task "u1" (rebind (record film { last_modified = 78 }))
    ∷ on_task "u1" (rebind (record film { size = 24 }))
    ∷ on_task "u1" (rebind (record film { name = "cut.mp4" }))
    ∷ on_task "u1" (rebind film)
    ∷ enqueue (record waiting { id = "u2"; expected_size = some 24 } ∷ [])
    ∷ on_task "u1" pause
    ∷ clear_completed
    ∷ []

reduce_all-AreFor_example : AreFor "u1" film (reduce_all (waiting ∷ []) rebinding)
reduce_all-AreFor_example =
    reduce_all-AreFor "u1" film refl (omega arith) (waiting ∷ []) rebinding
      (tt, (tt, (tt, (tt, ((refl, tt), (tt, (tt, tt))))))) (refl, tt)
