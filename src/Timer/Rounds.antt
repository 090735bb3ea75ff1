-- ===== src/Timer/Rounds.antt =====
-- The rounds of `Run`: what one does to the queue, and that the loop ends.
use zephyr_server.Common.{
  ℕ, zero, suc, ◌≤◌, ◌<◌, ◌≡◌, ◌⊎◌, refl, sym, ap, ◌∙◌, subst, inl, inr, true, Option, none, some,
  some≢none, List, [], ◌∷◌, length, ltb, ltb→lt, ◌==◌, if◌then◌else◌, Bool-cases, Option-cases,
  arith,
}
use mathlib.Core.List.{head?}
use mathlib.Core.Option.{some-injective}
use zephyr_server.TplMap.{Item}
use zephyr_server.TplMap.Order.{to_list}
use zephyr_server.TplMap.Lists.{find_item}
use zephyr_server.TplMultiMap.{Group, Code, success, MultiMap, add_in_tree, first, hold}
use zephyr_server.TplMultiMap.Entries.{insert_entry, erase_entry}
use zephyr_server.TplMultiMap.Add.{items, Valid, items-add_in_tree}
use zephyr_server.TplMultiMap.Remove.{items-remove_from_tree_item}
use zephyr_server.TplMultiMap.Queue.{AtLeast, Ascending, Valid-Ascending, first-items}
use zephyr_server.Timer.{
  Scheduler, find_addr, Pool, Timer, repeats, again, link_again, after_call, with_running, round,
  run_at, run_rounds, run,
}

-- What a round leaves of the queue for its node: the node at its next time, or nothing.
unfoldable pub put_back : Item Scheduler → List (Item Scheduler) → List (Item Scheduler)
put_back x rest = if repeats x.item.repeat_time then insert_entry (again x) rest else rest

-- All times are before `now`.
abbrev pub Due : ℕ → List (Item Scheduler) → Type 0
Due now [] = Unit
Due now (x ∷ xs) = (x.key < now) × Due now xs

-- The node of the tree at an item's key is the item's.
abbrev pub IsTreeNode : Item Scheduler → MultiMap Scheduler → Type 0
IsTreeNode y m =
    (z : Item (Group Scheduler)) × (find_item (to_list m.tree) y.key ≡ some z) × (z.addr ≡ y.addr)

pub add_back :
    (new : Item Scheduler) (m : MultiMap Scheduler)
    → Valid m
    → m.holder new.addr ≡ 0
    → (m' : MultiMap Scheduler) × (c : Code) × (add_in_tree (some new) m ≡ some (c, m'))
      × (items m' ≡ insert_entry new (items m))
      × Valid m'
add_back new m v free =
    let (c, m', made, list, this, holder, v') = items-add_in_tree new m v in
    let e : (m.holder new.addr == 0) ≡ true = ground arith in
    (
      m',
      c,
      made,
      ap (λ (z : Code × List (Item Scheduler)). z.1)
          (list
            ∙ ap
                (λ b.
                  if b
                  then (success, insert_entry new (items m))
                  else (Code.already_in_tree, items m))
                e),
      v',
    )

module _ {P : Type 0} (p : Pool P) where
  -- What follows the callback, for a node that the tree has.
  pub after_call_lem :
      (y : Item Scheduler) (t : Timer P)
      → Valid t.map
      → IsTreeNode y t.map
      → (t' : Timer P) × (after_call p (some y) t ≡ some t')
        × (items t'.map ≡ put_back y (erase_entry y (items t.map)))
        × Valid t'.map
  unfolding after_call link_again put_back again
  after_call_lem y t v (z, found, at) =
      let (m', made, list, this, holder, v') =
        items-remove_from_tree_item y t.map z v found (inl at) in
      elim (Bool-cases (repeats y.item.repeat_time)) [
        | inl e ↦
            let (m'', c, made', list', v'') =
              add_back (again y) m' v' (ap (λ h. h y.addr) holder ∙ gone t.map.holder y.addr) in
            rw (made, e, made') (_, refl, list' ∙ ap (insert_entry (again y)) list, v'')
        | inr e ↦ rw (made, e) (_, refl, list, v')
      ]
    where
      gone : (h : ℕ → ℕ) (b : ℕ) → hold b 0 h b ≡ 0
      gone h b = unfold hold in ground arith

  module _ {W : Type 0} (on_scheduler : Item Scheduler → ℕ → Timer P × W → Timer P × W) where
    -- The callback may use the timer, but leaves a valid map, in which the node that is called still is a
    -- node of the tree.
    abbrev pub Behaves : Type 0
    Behaves =
        (x : Item Scheduler) (now : ℕ) (t : Timer P) (w : W)
        → Valid t.map
        → first t.map ≡ some x
        → Valid (on_scheduler x now (with_running x.addr t, w)).0.map
          × (y : Item Scheduler) × (find_addr x.addr
                (items (on_scheduler x now (with_running x.addr t, w)).0.map)
              ≡ some y)
          × IsTreeNode y (on_scheduler x now (with_running x.addr t, w)).0.map

    round_lem :
        (now : ℕ) (x : Item Scheduler) (t : Timer P) (w : W)
        → Behaves
        → Valid t.map
        → first t.map ≡ some x
        → (s' : Timer P × W) × (round p on_scheduler now x (t, w) ≡ some s') × Valid s'.0.map
    unfolding round
    round_lem now x t w b v f =
        let (v', y, found, node) = b x now t w v f in
        let called = on_scheduler x now (with_running x.addr t, w) in
        let (t', made, list, v'') = after_call_lem y (with_running 0 called.0) v' node in
        rw (found, made) (_, refl, v'')

    -- What the loop leaves: the nodes called were due, and there are as many as rounds, or none is due.
    abbrev Ended : ℕ → ℕ → Option (List (Item Scheduler) × (Timer P × W)) → Type 0
    Ended left now o =
        (calls : List (Item Scheduler)) × (s' : Timer P × W) × (o ≡ some (calls, s'))
        × (length calls ≤ left)
        × Due now calls
        × ((length calls ≡ left) ⊎ AtLeast now (items s'.0.map))
        × Valid s'.0.map

    not_due :
        (now : ℕ) (xs : List (Item Scheduler)) (k : ℕ) → now ≤ k → AtLeast k xs → AtLeast now xs
    not_due now [] k h a = tt
    not_due now (x ∷ xs) k h a = (omega (arith, a.0), not_due now xs k h a.1)

    first_not_due :
        (now : ℕ) (xs : List (Item Scheduler)) (x : Item Scheduler)
        → head? xs ≡ some x
        → Ascending xs
        → now ≤ x.key
        → AtLeast now xs
    first_not_due now [] x e a h = tt
    first_not_due now (y ∷ xs) x e a h =
        let h' : now ≤ y.key = subst (λ z. now ≤ z.key) (sym (some-injective y x e)) h in
        (h', not_due now xs y.key h' a.0)

    none_due : (now : ℕ) (xs : List (Item Scheduler)) → head? xs ≡ none → AtLeast now xs
    none_due now [] e = tt
    none_due now (y ∷ xs) e = absurd (some≢none e)

    run_rounds-Ended :
        (left now : ℕ) (t : Timer P) (w : W)
        → Behaves
        → Valid t.map
        → Ended left now (run_rounds p on_scheduler left now (t, w))
    unfolding run_rounds run_at
    run_rounds-Ended zero now t w b v = ([], (t, w), refl, omega arith, tt, inl refl, v)
    run_rounds-Ended (suc left) now t w b v = elim (Option-cases (first t.map)) [
      | inl e ↦ rw e (
        [],
        (t, w),
        refl,
        omega arith,
        tt,
        inr (none_due now (items t.map) (sym (first-items t.map) ∙ e)),
        v,
      )
      | inr (x, e) ↦ elim (Bool-cases (ltb x.key now)) [
        | inl lo ↦
            let ((t', w'), made, v') = round_lem now x t w b v e in
            let (calls, s'', ran, short, due, done, v'') = run_rounds-Ended left now t' w' b v' in
            rw (e, lo, made, ran)
              (x ∷ calls, s'', refl, omega arith, (ltb→lt _ _ lo, due), more calls s'' done, v'')
        | inr hi ↦
            rw (e, hi)
              (
                [],
                (t, w),
                refl,
                omega arith,
                tt,
                inr (
                    first_not_due now (items t.map) x (sym (first-items t.map) ∙ e)
                      (Valid-Ascending t.map v) (ground arith)),
                v,
              )
      ]
    ]
      where
        more :
            (calls : List (Item Scheduler)) (s : Timer P × W)
            → (length calls ≡ left) ⊎ AtLeast now (items s.0.map)
            → (suc (length calls) ≡ suc left) ⊎ AtLeast now (items s.0.map)
        more calls s (inl e) = inl (ap suc e)
        more calls s (inr a) = inr a

    -- `Run` ends without a fault, whatever the callbacks do to a valid queue as long as the node that is
    -- called stays in it: each node that it calls is due, it calls at most 10001, and where it calls fewer,
    -- none that is left is due. The queue is valid again.
    pub run_settles :
        (now : ℕ) (t : Timer P) (w : W)
        → Behaves
        → Valid t.map
        → (calls : List (Item Scheduler)) × (s' : Timer P × W) × (run p on_scheduler now (t, w)
            ≡ some (calls, s'))
          × (length calls ≤ 10001)
          × Due now calls
          × ((length calls ≡ 10001) ⊎ AtLeast now (items s'.0.map))
          × Valid s'.0.map
    unfolding run
    run_settles now t w b v = run_rounds-Ended 10001 now t w b v
