-- ===== src/TaskMgr/Slots.antt =====
-- The list of tasks.
use zephyr_server.Common.{
  ℕ, ◌+◌, ◌≤◌, ◌<◌, ◌≡◌, ◌≢◌, refl, Option, none, some, List, [], ◌∷◌, length, arith,
}
use zephyr_server.TaskMgr.{add_task, release_task}

-- No slot has the task `p`.
unfoldable pub Lacks : ℕ → List (Option ℕ) → Type 0
Lacks p [] = Unit {0}
Lacks p (none ∷ slots) = Lacks p slots
Lacks p (some q ∷ slots) = (p ≢ q) × Lacks p slots

abbrev pub used_nr : List (Option ℕ) → ℕ
used_nr [] = 0
used_nr (none ∷ slots) = used_nr slots
used_nr (some q ∷ slots) = used_nr slots + 1

used_nr-le : (slots : List (Option ℕ)) → used_nr slots ≤ length slots
used_nr-le [] = omega arith
used_nr-le (none ∷ slots) = omega (arith, used_nr-le slots)
used_nr-le (some q ∷ slots) = omega (arith, used_nr-le slots)

-- `AddTask` is refused exactly where every slot is used; else one more is, and `ReleaseTask` of that
-- task, where it was not there before, gives back the list as it was.
pub release_task-add_task :
    (p : ℕ) (slots : List (Option ℕ))
    → Lacks p slots
    → (used_nr slots ≡ length slots → add_task p slots ≡ none)
      × (used_nr slots < length slots
          → (slots' : List (Option ℕ)) × (add_task p slots ≡ some slots')
            × (used_nr slots' ≡ used_nr slots + 1)
            × (length slots' ≡ length slots)
            × (release_task p slots' ≡ some slots))
unfolding add_task release_task Lacks
release_task-add_task p [] a = ((λ e. refl), λ h. absurd (omega arith))
release_task-add_task p (none ∷ slots) a = (
  (λ e. absurd (omega (arith, used_nr-le slots))),
  λ h. (some p ∷ slots, refl, refl, refl, ground arith),
)
release_task-add_task p (some q ∷ slots) (n, a) =
    let (full, free) = release_task-add_task p slots a in
    (
      (λ e. rw (full (omega arith)) refl),
      (λ h.
          (let (slots', made, used, size, back) = free (omega arith) in
            (some q ∷ slots', rw made refl, omega arith, omega arith, ground (arith, back)))),
    )
