-- ===== src/TaskMgr.antt =====
-- The tasks that worker threads share: `CTaskInfo` and `CTaskMgr` (System/TaskMgr/include/TaskMgr.h,
-- System/TaskMgr/source/TaskMgr.cpp). `CLock` is the platform's lock: it has one owner or none. A task
-- is its address. What a task does when it runs is not modelled; it does not release itself.
pub mod Exclusion
pub mod Slots
mod Tests
use zephyr_server.Common.{
  ℕ, ◌≡◌, ◌≢◌, Option, none, some, List, [], ◌∷◌, ◌>>=◌, ◌==◌, if◌then◌else◌,
}

-- `CTaskInfo`, with the owner of `m_lock`.
pub record TaskInfo : Type 0 where
  pub operating_thread : ℕ
  pub owner : Option ℕ
  pub task : Option ℕ

-- `CTaskInfo()`
pub new_task_info : TaskInfo
new_task_info = record { operating_thread = 0; owner = none; task = none }

-- How far a thread is with one `CTaskInfo`. A worker: past `IsUsed`, past the first and past the second
-- test of `m_operatingThread` in `ApplyTask` (`TryLock` stands between them), in `Run` with the task it
-- loaded, past `Run`, past the store of `QuitTask`; or out of `ApplyTask` with the lock still held.
-- A thread in `LoadTask` or `UnloadTask`, with the lock, before and after it looks at `m_pTask`.
pub data Pc : Type 0 where
  outside used seen locked owning finished leaving leaked unloading releasing : Pc
  running loading : ℕ → Pc

pub record System : Type 0 where
  pub info : TaskInfo
  pub pc : ℕ → Pc

-- Thread `i` is then at `p`.
abbrev pub moved : System → ℕ → Pc → TaskInfo → System
moved s i p info = record { info = info; pc = λ j. if j == i then p else s.pc j }

pub data Step (s : System) : System → Type 0 where
  -- `Loop`: `IsUsed`
  is_used : (i p : ℕ) → s.pc i ≡ outside → s.info.task ≡ some p → Step s (moved s i used s.info)
  -- `ApplyTask`
  first_test :
      (i : ℕ) → s.pc i ≡ used → s.info.operating_thread ≡ 0 → Step s (moved s i seen s.info)
  busy : (i : ℕ) → s.pc i ≡ used → s.info.operating_thread ≢ 0 → Step s (moved s i outside s.info)
  try_lock :
      (i : ℕ)
      → s.pc i ≡ seen
      → s.info.owner ≡ none
      → Step s (moved s i locked (record s.info { owner = some i }))
  try_lock_fails :
      (i j : ℕ) → s.pc i ≡ seen → s.info.owner ≡ some j → Step s (moved s i outside s.info)
  second_test_fails :
      (i : ℕ) → s.pc i ≡ locked → s.info.operating_thread ≢ 0 → Step s (moved s i leaked s.info)
  mark :
      (i : ℕ)
      → s.pc i ≡ locked
      → s.info.operating_thread ≡ 0
      → Step s (moved s i owning (record s.info { operating_thread = i }))
  -- `Run`
  begin_run :
      (i p : ℕ) → s.pc i ≡ owning → s.info.task ≡ some p → Step s (moved s i (running p) s.info)
  no_task : (i : ℕ) → s.pc i ≡ owning → s.info.task ≡ none → Step s (moved s i finished s.info)
  end_run : (i p : ℕ) → s.pc i ≡ running p → Step s (moved s i finished s.info)
  -- `QuitTask`
  unmark :
      (i : ℕ)
      → s.pc i ≡ finished
      → Step s (moved s i leaving (record s.info { operating_thread = 0 }))
  quit : (i : ℕ) → s.pc i ≡ leaving → Step s (moved s i outside (record s.info { owner = none }))
  -- `LoadTask`
  lock_load :
      (i p : ℕ)
      → s.pc i ≡ outside
      → s.info.owner ≡ none
      → Step s (moved s i (loading p) (record s.info { owner = some i }))
  load_task :
      (i p : ℕ)
      → s.pc i ≡ loading p
      → s.info.task ≡ none
      → Step s (moved s i releasing (record s.info { task = some p }))
  already_inited :
      (i p q : ℕ) → s.pc i ≡ loading p → s.info.task ≡ some q → Step s (moved s i releasing s.info)
  -- `UnloadTask`
  lock_unload :
      (i : ℕ)
      → s.pc i ≡ outside
      → s.info.owner ≡ none
      → Step s (moved s i unloading (record s.info { owner = some i }))
  unload_task :
      (i : ℕ) → s.pc i ≡ unloading → Step s (moved s i releasing (record s.info { task = none }))
  unlock :
      (i : ℕ) → s.pc i ≡ releasing → Step s (moved s i outside (record s.info { owner = none }))

abbrev pub started : TaskInfo → System
started info = record { info = info; pc = λ _. outside }

pub data Reach : System → Type 0 where
  start : Reach (started new_task_info)
  later : {s t : System} → Reach s → Step s t → Reach t

-- `m_taskList` by the tasks, and the loops of `AddTask` and `ReleaseTask`: none is `OUT_OF_MEM` and
-- `TASK_NOT_FOUND`.
unfoldable pub add_task : ℕ → List (Option ℕ) → Option (List (Option ℕ))
add_task p [] = none
add_task p (none ∷ slots) = some (some p ∷ slots)
add_task p (some q ∷ slots) = add_task p slots >>= λ rest. some (some q ∷ rest)

unfoldable pub release_task : ℕ → List (Option ℕ) → Option (List (Option ℕ))
release_task p [] = none
release_task p (none ∷ slots) = release_task p slots >>= λ rest. some (none ∷ rest)
release_task p (some q ∷ slots) =
    let further = release_task p slots >>= λ rest. some (some q ∷ rest) in
    if p == q then some (none ∷ slots) else further
