-- ===== src/TaskMgr/Exclusion.antt =====
-- Which thread may touch a task, in every interleaving.
use zephyr_server.Common.{
  ℕ, ◌≡◌, ◌≢◌, refl, sym, ◌∙◌, subst, inl, inr, none, some, some≢none, ◌==◌, ==_iff, Bool-cases,
  arith,
}
use zephyr_server.TaskMgr.{
  TaskInfo, new_task_info, Pc, outside, used, seen, locked, owning, finished, leaving, leaked,
  unloading, releasing, running, loading, System, moved, Step, is_used, first_test, busy, try_lock,
  try_lock_fails, second_test_fails, mark, begin_run, no_task, end_run, unmark, quit, lock_load,
  load_task, already_inited, lock_unload, unload_task, unlock, Reach, start, later,
}

-- What holds of the `CTaskInfo` while thread `i` is at each place.
Knows : TaskInfo → ℕ → Pc → Type 0
Knows s i outside = Unit {0}
Knows s i used = Unit {0}
Knows s i seen = Unit {0}
Knows s i locked = (s.owner ≡ some i) × (s.operating_thread ≡ 0)
Knows s i owning = s.owner ≡ some i
Knows s i (running p) = (s.owner ≡ some i) × (s.task ≡ some p)
Knows s i finished = s.owner ≡ some i
Knows s i leaving = (s.owner ≡ some i) × (s.operating_thread ≡ 0)
Knows s i leaked = ⊥
Knows s i (loading p) = (s.owner ≡ some i) × (s.operating_thread ≡ 0)
Knows s i unloading = (s.owner ≡ some i) × (s.operating_thread ≡ 0)
Knows s i releasing = (s.owner ≡ some i) × (s.operating_thread ≡ 0)

record Inv (s : System) : Type 0 where
  knows : (i : ℕ) → Knows s.info i (s.pc i)
  unmarked : s.info.owner ≡ none → s.info.operating_thread ≡ 0

-- A thread that does not own the lock loses nothing when the `CTaskInfo` changes.
Knows-other : (s t : TaskInfo) (j : ℕ) (p : Pc) → s.owner ≢ some j → Knows s j p → Knows t j p
unfolding Knows
Knows-other s t j outside n k = tt
Knows-other s t j used n k = tt
Knows-other s t j seen n k = tt
Knows-other s t j locked n k = absurd (n k.0)
Knows-other s t j owning n k = absurd (n k)
Knows-other s t j (running p) n k = absurd (n k.0)
Knows-other s t j finished n k = absurd (n k)
Knows-other s t j leaving n k = absurd (n k.0)
Knows-other s t j leaked n k = k
Knows-other s t j (loading p) n k = absurd (n k.0)
Knows-other s t j unloading n k = absurd (n k.0)
Knows-other s t j releasing n k = absurd (n k.0)

-- Thread `i` moves on: alone, or with a change that no other owner of the lock can see.
stays : (s : System) (i : ℕ) (p : Pc) → Inv s → Knows s.info i p → Inv (moved s i p s.info)
stays s i p v k = record {
  knows = λ j. elim (Bool-cases (j == i)) [
    | inl e ↦ rw e (subst (λ z. Knows s.info z p) (sym ((==_iff j i).0 e)) k)
    | inr e ↦ rw e (v.knows j)
  ];
  unmarked = v.unmarked;
}

changes :
    (s : System) (i : ℕ) (p : Pc) (t : TaskInfo)
    → Inv s
    → ((j : ℕ) → j ≢ i → s.info.owner ≢ some j)
    → Knows t i p
    → (t.owner ≡ none → t.operating_thread ≡ 0)
    → Inv (moved s i p t)
changes s i p t v others k u = record {
  knows = λ j. elim (Bool-cases (j == i)) [
    | inl e ↦ rw e (subst (λ z. Knows t z p) (sym ((==_iff j i).0 e)) k)
    | inr e ↦ rw e (Knows-other s.info t j (s.pc j) (others j (λ q. ground arith)) (v.knows j))
  ];
  unmarked = u;
}

-- A thread that takes the free lock, and one that changes what it owns.
takes :
    (s : System) (i : ℕ) (p : Pc) (t : TaskInfo)
    → Inv s
    → s.info.owner ≡ none
    → Knows t i p
    → t.owner ≡ some i
    → Inv (moved s i p t)
takes s i p t v e k o =
    changes s i p t v (λ j n q. some≢none (sym q ∙ e)) k (λ q. absurd (some≢none (sym o ∙ q)))

owns :
    (s : System) (i : ℕ) (p : Pc) (t : TaskInfo)
    → Inv s
    → s.info.owner ≡ some i
    → Knows t i p
    → (t.owner ≡ none → t.operating_thread ≡ 0)
    → Inv (moved s i p t)
owns s i p t v e k u = changes s i p t v (λ j n q. n (same j (sym q ∙ e))) k u
  where
    same : (j : ℕ) → some j ≡ some i → j ≡ i
    same j r = cc

Step-Inv : {s t : System} → Inv s → Step s t → Inv t
unfolding Knows
Step-Inv {s} v (is_used i p e f) = stays s i used v tt
Step-Inv {s} v (first_test i e f) = stays s i seen v tt
Step-Inv {s} v (busy i e f) = stays s i outside v tt
Step-Inv {s} v (try_lock i e f) = takes s i locked _ v f (refl, v.unmarked f) refl
Step-Inv {s} v (try_lock_fails i j e f) = stays s i outside v tt
Step-Inv {s} v (second_test_fails i e f) = absurd (f (subst (Knows s.info i) e (v.knows i)).1)
Step-Inv {s} v (mark i e f) =
    let (o, z) = subst (Knows s.info i) e (v.knows i) in
    owns s i owning _ v o o (λ q. absurd (some≢none (sym o ∙ q)))
Step-Inv {s} v (begin_run i p e f) =
    let o = subst (Knows s.info i) e (v.knows i) in stays s i (running p) v (o, f)
Step-Inv {s} v (no_task i e f) =
    let o = subst (Knows s.info i) e (v.knows i) in stays s i finished v o
Step-Inv {s} v (end_run i p e) =
    let (o, f) = subst (Knows s.info i) e (v.knows i) in stays s i finished v o
Step-Inv {s} v (unmark i e) =
    let o = subst (Knows s.info i) e (v.knows i) in owns s i leaving _ v o (o, refl) (λ q. refl)
Step-Inv {s} v (quit i e) =
    let (o, z) = subst (Knows s.info i) e (v.knows i) in owns s i outside _ v o tt (λ q. z)
Step-Inv {s} v (lock_load i p e f) = takes s i (loading p) _ v f (refl, v.unmarked f) refl
Step-Inv {s} v (load_task i p e f) =
    let (o, z) = subst (Knows s.info i) e (v.knows i) in owns s i releasing _ v o (o, z) (λ q. z)
Step-Inv {s} v (already_inited i p q e f) =
    let k = subst (Knows s.info i) e (v.knows i) in stays s i releasing v k
Step-Inv {s} v (lock_unload i e f) = takes s i unloading _ v f (refl, v.unmarked f) refl
Step-Inv {s} v (unload_task i e) =
    let (o, z) = subst (Knows s.info i) e (v.knows i) in owns s i releasing _ v o (o, z) (λ q. z)
Step-Inv {s} v (unlock i e) =
    let (o, z) = subst (Knows s.info i) e (v.knows i) in owns s i outside _ v o tt (λ q. z)

Reach-Inv : {s : System} → Reach s → Inv s
unfolding Knows new_task_info
Reach-Inv start = record { knows = λ i. tt; unmarked = λ q. refl }
Reach-Inv (later path step) = Step-Inv (Reach-Inv path) step

-- However any number of workers and of threads that load and unload tasks interleave, two threads
-- never run the same `CTaskInfo`, a task stays loaded while a thread runs it, and no thread comes out of
-- `ApplyTask` without the task but with the lock, the way that its second test would leave it.
pub runs_alone :
    {s : System}
    → Reach s
    → ((i j p q : ℕ) → s.pc i ≡ running p → s.pc j ≡ running q → i ≡ j)
      × ((i p : ℕ) → s.pc i ≡ running p → s.info.task ≡ some p)
      × ((i : ℕ) → s.pc i ≢ leaked)
unfolding Knows
runs_alone {s} path =
    let v = Reach-Inv path in
    (
      (λ i j p q e f. same i j (
          sym (subst (Knows s.info i) e (v.knows i)).0 ∙ (subst (Knows s.info j) f (v.knows j)).0)),
      (λ i p e. (subst (Knows s.info i) e (v.knows i)).1),
      (λ i e. subst (Knows s.info i) e (v.knows i)),
    )
  where
    same : (a b : ℕ) → some a ≡ some b → a ≡ b
    same a b r = cc
