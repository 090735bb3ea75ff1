-- ===== src/TaskMgr/Tests.antt =====
-- A worker that runs a task which another thread has loaded, and a list of three slots.
use zephyr_server.Common.{ℕ, ◌≡◌, ◌≢◌, refl, Option, none, some, List, [], ◌∷◌, arith}
use zephyr_server.TaskMgr.{
  new_task_info, System, Reach, start, later, running, leaked, is_used, first_test, try_lock, mark,
  begin_run, lock_load, load_task, unlock,
}
use zephyr_server.TaskMgr.Exclusion.{runs_alone}
use zephyr_server.TaskMgr.Slots.{Lacks}

-- Thread 9 loads the task 70, and thread 2 comes to run it.
path : (s : System) × Reach s × (s.pc 2 ≡ running 70)
unfolding new_task_info
path =
    let a = later start (lock_load 9 70 refl refl) in
    let b = later a (load_task 9 70 refl refl) in
    let c = later b (unlock 9 refl) in
    let d = later c (is_used 2 70 refl refl) in
    let e = later d (first_test 2 refl refl) in
    let f = later e (try_lock 2 refl refl) in
    let g = later f (mark 2 refl refl) in (_, later g (begin_run 2 70 refl refl), refl)

runs_alone_example :
    let s = path.0 in
    ((i j p q : ℕ) → s.pc i ≡ running p → s.pc j ≡ running q → i ≡ j)
    × ((i p : ℕ) → s.pc i ≡ running p → s.info.task ≡ some p)
    × ((i : ℕ) → s.pc i ≢ leaked)
runs_alone_example = runs_alone (path.1)

abbrev slots : List (Option ℕ)
slots = some 5 ∷ none ∷ some 6 ∷ []

slots-Lacks : Lacks 7 slots
unfolding Lacks
slots-Lacks = (omega arith, (omega arith, tt))
