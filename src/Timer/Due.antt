-- ===== src/Timer/Due.antt =====
-- `Run` with callbacks that leave the timer alone, against a description on the list of the nodes: which
-- are called, in which order and how often.
use zephyr_server.Common.{
  ℕ, zero, suc, ◌≡◌, refl, sym, ap, ◌∙◌, subst, inl, inr, some, some≢none, ◌>>=◌, List, [], ◌∷◌,
  ltb, if◌then◌else◌, Bool-cases, arith,
}
use mathlib.Core.List.{head?}
use mathlib.Core.Option.{some-injective}
use zephyr_server.TplMap.{Item}
use zephyr_server.TplMultiMap.{head_of}
use zephyr_server.TplMultiMap.Entries.{erase_entry}
use zephyr_server.TplMultiMap.Add.{items, Valid}
use zephyr_server.TplMultiMap.Queue.{first-items, first_node, erase_first}
use zephyr_server.Timer.{
  Scheduler, find_addr, Pool, Timer, with_running, after_call, round, run_at, run_rounds, run,
}
use zephyr_server.Timer.Rounds.{put_back, IsTreeNode, Behaves, after_call_lem}

-- The nodes that so many rounds call, and the queue after them.
unfoldable pub fire : ℕ → ℕ → List (Item Scheduler) → List (Item Scheduler) × List (Item Scheduler)
fire zero now xs = ([], xs)
fire (suc left) now [] = ([], [])
fire (suc left) now (x ∷ xs) =
    let later = fire left now (put_back x xs) in
    if ltb x.key now then (x ∷ later.0, later.1) else ([], x ∷ xs)

module _ {P W : Type 0} (p : Pool P)
    (on_scheduler : Item Scheduler → ℕ → Timer P × W → Timer P × W) where
  -- The callbacks do not use the timer.
  abbrev pub Quiet : Type 0
  Quiet = (x : Item Scheduler) (now : ℕ) (t : Timer P) (w : W) → (on_scheduler x now (t, w)).0 ≡ t

  -- Such callbacks leave the node where it is.
  pub Quiet-Behaves : Quiet → Behaves p on_scheduler
  unfolding head_of
  Quiet-Behaves q x now t w v f =
      let same = ap (λ (u : Timer P). u.map) (q x now (with_running x.addr t) w) in
      let (rest, e) = rest_of (items t.map) x (sym (first-items t.map) ∙ f) in
      let (z, _, is, found) = first_node t.map.tree x rest e in
      subst
        (λ m.
          Valid m × (y : Item Scheduler) × (find_addr x.addr (items m) ≡ some y) × IsTreeNode y m)
        (sym same) (v, x, (ap (find_addr x.addr) e ∙ here rest), (z, found, ap (λ i. i.addr) is))
    where
      rest_of :
          (xs : List (Item Scheduler)) (y : Item Scheduler)
          → head? xs ≡ some y
          → (rest : List (Item Scheduler)) × (xs ≡ y ∷ rest)
      rest_of [] y e = absurd (some≢none (sym e))
      rest_of (i ∷ xs) y e = (xs, ap (λ j. j ∷ xs) (some-injective i y e))

      here : (ys : List (Item Scheduler)) → find_addr x.addr (x ∷ ys) ≡ some x
      here ys = unfold find_addr in ground arith

  -- A round whose callback leaves the node, as `y`, first in the queue.
  pub round_first :
      (now : ℕ) (x y : Item Scheduler) (rest : List (Item Scheduler)) (t : Timer P) (w : W)
      → Valid (on_scheduler x now (with_running x.addr t, w)).0.map
      → items (on_scheduler x now (with_running x.addr t, w)).0.map ≡ y ∷ rest
      → y.addr ≡ x.addr
      → (t' : Timer P) × (w' : W) × (round p on_scheduler now x (t, w) ≡ some (t', w'))
        × (items t'.map ≡ put_back y rest)
        × Valid t'.map
  unfolding round head_of
  round_first now x y rest t w v e at =
      let called = on_scheduler x now (with_running x.addr t, w) in
      let (z, is_first, same, found) = first_node called.0.map.tree y rest e in
      let (t', made, left, v') =
        after_call_lem p y (with_running 0 called.0) v (z, found, ap (λ i. i.addr) same) in
      let look : find_addr x.addr (items called.0.map) ≡ some y =
        ap (find_addr x.addr) e ∙ here y rest at in
      (
        t',
        called.1,
        ap (λ o. o >>= (λ (u : Timer P). some (u, called.1)))
            (ap (λ o. after_call p o (with_running 0 called.0)) look ∙ made),
        left ∙ ap (put_back y) (ap (erase_entry y) e ∙ erase_first y rest),
        v',
      )
    where
      here :
          (i : Item Scheduler) (ys : List (Item Scheduler))
          → i.addr ≡ x.addr
          → find_addr x.addr (i ∷ ys) ≡ some i
      here i ys q = unfold find_addr in ground (arith, q)

  quiet_round :
      (now : ℕ) (x : Item Scheduler) (rest : List (Item Scheduler)) (t : Timer P) (w : W)
      → Quiet
      → Valid t.map
      → items t.map ≡ x ∷ rest
      → (t' : Timer P) × (w' : W) × (round p on_scheduler now x (t, w) ≡ some (t', w'))
        × (items t'.map ≡ put_back x rest)
        × Valid t'.map
  quiet_round now x rest t w q v e =
      let same = ap (λ (u : Timer P). u.map) (q x now (with_running x.addr t) w) in
      round_first now x x rest t w (subst Valid (sym same) v) (ap items same ∙ e) refl

  Fired : ℕ → ℕ → Timer P → W → Type 0
  Fired left now t w =
      (calls : List (Item Scheduler)) × (t' : Timer P) × (w' : W) × (run_rounds p on_scheduler left
          now (t, w)
        ≡ some (calls, (t', w')))
      × ((calls, items t'.map) ≡ fire left now (items t.map))
      × Valid t'.map

  step-Fired :
      (left now : ℕ) (t : Timer P) (w : W) (xs : List (Item Scheduler))
      → Quiet
      → Valid t.map
      → items t.map ≡ xs
      → ((u : Timer P) (z : W) → Valid u.map → Fired left now u z)
      → Fired (suc left) now t w
  unfolding Fired run_rounds run_at fire
  step-Fired left now t w [] q v e ih =
      rw (first-items t.map, e) ([], t, w, refl, ap (λ z. ([], z)) e, v)
  step-Fired left now t w (x ∷ rest) q v e ih = elim (Bool-cases (ltb x.key now)) [
    | inl lo ↦
        let (t', w', made, list, v') = quiet_round now x rest t w q v e in
        let (calls, t'', w'', ran, same, v'') = ih t' w' v' in
        let same' = same ∙ ap (fire left now) list in
        rw (first-items t.map, e, lo, made, ran)
          (
            x ∷ calls,
            t'',
            w'',
            refl,
            ap (λ (z : List (Item Scheduler) × List (Item Scheduler)). (x ∷ z.0, z.1)) same',
            v'',
          )
    | inr hi ↦ rw (first-items t.map, e, hi) ([], t, w, refl, ap (λ z. ([], z)) e, v)
  ]

  run_rounds-Fired : (left now : ℕ) (t : Timer P) (w : W) → Quiet → Valid t.map → Fired left now t w
  run_rounds-Fired zero now t w q v = unfold Fired run_rounds fire in ([], t, w, refl, refl, v)
  run_rounds-Fired (suc left) now t w q v =
      step-Fired left now t w (items t.map) q v refl (λ u z b. run_rounds-Fired left now u z q b)

  -- Where the callbacks leave the timer alone, `Run` on a valid queue calls the nodes that the description
  -- `fire` calls, in its order, and leaves the queue that it leaves: the first node is called while it is
  -- due; it is put back by `m_nGap` later while it is to be repeated, else it is gone. The queue is valid.
  pub run-fire :
      (now : ℕ) (t : Timer P) (w : W)
      → Quiet
      → Valid t.map
      → (calls : List (Item Scheduler)) × (t' : Timer P) × (w' : W) × (run p on_scheduler now (t, w)
          ≡ some (calls, (t', w')))
        × ((calls, items t'.map) ≡ fire 10001 now (items t.map))
        × Valid t'.map
  unfolding run
  run-fire now t w q v = unfold Fired in run_rounds-Fired 10001 now t w q v
