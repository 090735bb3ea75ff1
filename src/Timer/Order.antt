-- ===== src/Timer/Order.antt =====
-- The order in which `Run` calls the nodes, and how often it calls one of them.
use zephyr_server.Common.{
  ℕ, zero, suc, ◌+◌, ◌*◌, ◌^◌, ◌≤◌, ◌<◌, ◌≡◌, refl, sym, ap, ap₂, ◌∙◌, subst, inl, inr, true, some,
  List, [], ◌∷◌, map, length, ltb, ltb→lt, Bool-cases, arith,
}
use native.Mathlib.Nat.{mod-eq_of_lt}
use zephyr_server.TplMap.{Item}
use zephyr_server.TplMultiMap.Entries.{insert_entry}
use zephyr_server.TplMultiMap.Add.{items, Valid}
use zephyr_server.TplMultiMap.Queue.{AtLeast, Ascending, Valid-Ascending}
use zephyr_server.Timer.{Scheduler, pos, negsuc, Pool, Timer, repeats, count_down, again, run}
use zephyr_server.Timer.Rounds.{put_back}
use zephyr_server.Timer.Due.{fire, Quiet, run-fire}

module _ {ℓ} {A : Type ℓ} where
  insert_entry-AtLeast :
      (new : Item A) (k : ℕ) (xs : List (Item A))
      → k ≤ new.key
      → AtLeast k xs
      → AtLeast k (insert_entry new xs)
  unfolding insert_entry
  insert_entry-AtLeast new k [] h a = (h, tt)
  insert_entry-AtLeast new k (x ∷ xs) h a =
      ground (arith, h, a.0, a.1, insert_entry-AtLeast new k xs h a.1)

  AtLeast-trans : (j k : ℕ) (xs : List (Item A)) → j ≤ k → AtLeast k xs → AtLeast j xs
  AtLeast-trans j k [] h a = tt
  AtLeast-trans j k (x ∷ xs) h a = (omega (arith, a.0), AtLeast-trans j k xs h a.1)

  insert_entry-Ascending :
      (new : Item A) (xs : List (Item A)) → Ascending xs → Ascending (insert_entry new xs)
  unfolding insert_entry
  insert_entry-Ascending new [] s = (tt, tt)
  insert_entry-Ascending new (x ∷ xs) s = ground (
    arith,
    insert_entry-Ascending new xs s.1,
    s.0,
    AtLeast-trans new.key x.key xs,
    insert_entry-AtLeast new x.key xs,
  )

-- `m_nGap` is a `TUInt32`.
abbrev pub Gapped : List (Item Scheduler) → Type 0
Gapped [] = Unit
Gapped (x ∷ xs) = (x.item.gap < 2 ^ 32) × Gapped xs

insert_entry-Gapped :
    (new : Item Scheduler) (xs : List (Item Scheduler))
    → new.item.gap < 2 ^ 32
    → Gapped xs
    → Gapped (insert_entry new xs)
unfolding insert_entry
insert_entry-Gapped new [] h g = (h, tt)
insert_entry-Gapped new (x ∷ xs) h g = ground (arith, insert_entry-Gapped new xs h g.1)

-- The next time of a node that is due.
key-again :
    (now : ℕ) (x : Item Scheduler)
    → x.key + x.item.gap < 2 ^ 64
    → (again x).key ≡ x.key + x.item.gap
unfolding again
key-again now x h = mod-eq_of_lt h

-- What a round puts back comes no earlier than its node.
put_back_lem :
    (now : ℕ) (x : Item Scheduler) (xs : List (Item Scheduler))
    → now + 2 ^ 32 ≤ 2 ^ 64
    → x.key < now
    → AtLeast x.key xs
    → Ascending xs
    → Gapped (x ∷ xs)
    → AtLeast x.key (put_back x xs) × Ascending (put_back x xs) × Gapped (put_back x xs)
unfolding put_back
put_back_lem now x xs h lo a s g =
    let later : x.key ≤ (again x).key = omega (arith, key-again now x (omega (arith, g.0))) in
    elim (Bool-cases (repeats x.item.repeat_time)) [
      | inl e ↦ rw e (
        insert_entry-AtLeast (again x) x.key xs later a,
        insert_entry-Ascending (again x) xs s,
        insert_entry-Gapped (again x) xs (unfold again in g.0) g.1,
      )
      | inr e ↦ rw e (a, s, g.1)
    ]

fire-Ascending :
    (left now k : ℕ) (xs : List (Item Scheduler))
    → now + 2 ^ 32 ≤ 2 ^ 64
    → AtLeast k xs
    → Ascending xs
    → Gapped xs
    → AtLeast k (fire left now xs).0 × Ascending (fire left now xs).0
unfolding fire
fire-Ascending zero now k xs h a s g = (tt, tt)
fire-Ascending (suc left) now k [] h a s g = (tt, tt)
fire-Ascending (suc left) now k (x ∷ xs) h a s g = elim (Bool-cases (ltb x.key now)) [
  | inl lo ↦
      let (b, t, f) = put_back_lem now x xs h (ltb→lt _ _ lo) s.0 s.1 g in
      let (after, rest) = fire-Ascending left now x.key (put_back x xs) h b t f in
      rw lo
        ((a.0, AtLeast-trans k x.key (fire left now (put_back x xs)).0 a.0 after), (after, rest))
  | inr hi ↦ rw hi (tt, tt)
]

-- So many times, from one on, by a gap.
abbrev pub times : ℕ → ℕ → ℕ → List ℕ
times zero key gap = []
times (suc n) key gap = key ∷ times n (key + gap) gap

abbrev key_of : Item Scheduler → ℕ
key_of x = x.key

fire-empty : (left now : ℕ) → fire left now [] ≡ ([], [])
unfolding fire
fire-empty zero now = refl
fire-empty (suc left) now = refl

fire-due :
    (left now : ℕ) (x : Item Scheduler) (xs : List (Item Scheduler))
    → x.key < now
    → fire (suc left) now (x ∷ xs)
      ≡ (x ∷ (fire left now (put_back x xs)).0, (fire left now (put_back x xs)).1)
unfolding fire
fire-due left now x xs h = let e : ltb x.key now ≡ true = ground arith in rw e refl

put_back-single :
    (x : Item Scheduler) → repeats x.item.repeat_time ≡ true → put_back x [] ≡ again x ∷ []
unfolding put_back insert_entry
put_back-single x e = rw e refl

-- The calls where the only node is due and is to be repeated.
fire-again :
    (left now : ℕ) (x : Item Scheduler)
    → x.key < now
    → repeats x.item.repeat_time ≡ true
    → fire (suc left) now (x ∷ [])
      ≡ (x ∷ (fire left now (again x ∷ [])).0, (fire left now (again x ∷ [])).1)
fire-again left now x h e =
    fire-due left now x [] h
    ∙ ap (λ z. (x ∷ (fire left now z).0, (fire left now z).1)) (put_back-single x e)

fire-single :
    (n left now : ℕ) (x : Item Scheduler)
    → n < left
    → now ≤ 2 ^ 64
    → x.item.repeat_time ≡ pos n
    → x.key + n * x.item.gap < now
    → (map key_of (fire left now (x ∷ [])).0 ≡ times (suc n) x.key x.item.gap)
      × ((fire left now (x ∷ [])).1 ≡ [])
fire-single n zero now x h b r d = absurd (omega arith)
fire-single zero (suc left) now x h b r d =
    let stop : put_back x [] ≡ [] = unfold put_back repeats in rw r refl in
    rw (fire-due left now x [] (omega arith), stop, fire-empty left now) (refl, refl)
fire-single (suc n) (suc left) now x h b r d =
    let e : repeats x.item.repeat_time ≡ true = unfold repeats in rw r refl in
    let d' : x.key + x.item.gap + n * x.item.gap < now = rest x.key x.item.gap d in
    let key : (again x).key ≡ x.key + x.item.gap = key-again now x (omega arith) in
    let count : (again x).item.repeat_time ≡ pos n = unfold again count_down in rw r refl in
    let gap : (again x).item.gap ≡ x.item.gap = unfold again in refl in
    let (calls, left_over) =
      fire-single n left now (again x) (omega arith) b count
        (subst (λ z. z < now) (sym (ap₂ (λ k g. k + n * g) key gap)) d') in
    rw (fire-again left now x (omega arith) e)
      (ap (λ z. x.key ∷ z) (calls ∙ ap₂ (times (suc n)) key gap), left_over)
  where
    rest : (k g : ℕ) → k + suc n * g < now → k + g + n * g < now
    rest k g h = grind arith

-- The calls where the only node is to be repeated for ever, at once.
forever_fires :
    (left now m : ℕ) (x : Item Scheduler)
    → now ≤ 2 ^ 64
    → x.item.repeat_time ≡ negsuc m
    → x.item.gap ≡ 0
    → x.key < now
    → length (fire left now (x ∷ [])).0 ≡ left
forever_fires zero now m x b r g d = unfold fire in refl
forever_fires (suc left) now m x b r g d =
    let e : repeats x.item.repeat_time ≡ true = unfold repeats in rw r refl in
    let key : (again x).key ≡ x.key + x.item.gap = key-again now x (omega arith) in
    let same : (again x).item.repeat_time ≡ negsuc m = unfold again count_down in rw r refl in
    let gap : (again x).item.gap ≡ 0 = unfold again in g in
    rw (fire-again left now x d e)
      (ap suc (forever_fires left now m (again x) b same gap (omega (arith, key))))

module _ {P W : Type 0} (p : Pool P)
    (on_scheduler : Item Scheduler → ℕ → Timer P × W → Timer P × W) where
  -- Where the callbacks leave the timer alone, `Run` calls the nodes in the order of the times when they are
  -- due, those that it has put back included, as long as `m_nTime` cannot go beyond a `TUInt64`.
  pub run_in_order :
      (now : ℕ) (t : Timer P) (w : W)
      → Quiet p on_scheduler
      → Valid t.map
      → now + 2 ^ 32 ≤ 2 ^ 64
      → Gapped (items t.map)
      → (calls : List (Item Scheduler)) × (s' : Timer P × W) × (run p on_scheduler now (t, w)
          ≡ some (calls, s'))
        × Ascending calls
  run_in_order now t w q v h g =
      let (calls, t', w', made, same, _) = run-fire p on_scheduler now t w q v in
      (
        calls,
        (t', w'),
        made,
        subst Ascending (sym (ap (λ (z : List (Item Scheduler) × List (Item Scheduler)). z.0) same))
            (fire-Ascending 10001 now 0 (items t.map) h (from_zero (items t.map))
              (Valid-Ascending t.map v) g).1,
      )
    where
      from_zero : (xs : List (Item Scheduler)) → AtLeast 0 xs
      from_zero [] = tt
      from_zero (x ∷ xs) = (omega arith, from_zero xs)

  -- The only timer, which is to be repeated n times and whose last call is due too, is called n + 1 times,
  -- at its time and then by its gap, and is gone.
  pub run_repeats :
      (now n : ℕ) (t : Timer P) (w : W) (x : Item Scheduler)
      → Quiet p on_scheduler
      → Valid t.map
      → items t.map ≡ x ∷ []
      → x.item.repeat_time ≡ pos n
      → n ≤ 10000
      → now ≤ 2 ^ 64
      → x.key + n * x.item.gap < now
      → (calls : List (Item Scheduler)) × (t' : Timer P) × (w' : W) × (run p on_scheduler now (t, w)
          ≡ some (calls, (t', w')))
        × (map key_of calls ≡ times (n + 1) x.key x.item.gap)
        × (items t'.map ≡ [])
  run_repeats now n t w x q v only r few b d =
      let (calls, t', w', made, same, _) = run-fire p on_scheduler now t w q v in
      let same' = same ∙ ap (fire 10001 now) only in
      let one_more : suc n ≡ n + 1 = omega arith in
      let (keys, gone) = fire-single n 10001 now x (omega arith) b r d in
      (
        calls,
        t',
        w',
        made,
        ap (λ (z : List (Item Scheduler) × List (Item Scheduler)). map key_of z.0) same'
            ∙ keys
            ∙ ap (λ k. times k x.key x.item.gap) one_more,
        ap (λ (z : List (Item Scheduler) × List (Item Scheduler)). z.1) same' ∙ gone,
      )

  -- The only timer, which is to be repeated for ever with a gap of 0 and is due, is called 10001 times, and
  -- `Run` ends.
  pub run_forever :
      (now m : ℕ) (t : Timer P) (w : W) (x : Item Scheduler)
      → Quiet p on_scheduler
      → Valid t.map
      → items t.map ≡ x ∷ []
      → x.item.repeat_time ≡ negsuc m
      → x.item.gap ≡ 0
      → now ≤ 2 ^ 64
      → x.key < now
      → (calls : List (Item Scheduler)) × (s' : Timer P × W) × (run p on_scheduler now (t, w)
          ≡ some (calls, s'))
        × (length calls ≡ 10001)
  run_forever now m t w x q v only r g b d =
      let (calls, t', w', made, same, _) = run-fire p on_scheduler now t w q v in
      let same' = same ∙ ap (fire 10001 now) only in
      (
        calls,
        (t', w'),
        made,
        ap (λ (z : List (Item Scheduler) × List (Item Scheduler)). length z.0) same'
            ∙ forever_fires 10001 now m x b r g d,
      )
