-- ===== src/TplList/Tests.antt =====
-- Lists at concrete nodes: 1 and 2 are in a list, 3 is in none.
use zephyr_server.Common.{◌≡◌, ◌≢◌, refl, none, some, [], ◌∷◌, ◌==◌, if◌then◌else◌, ℕ, arith}
use zephyr_server.TplList.{Heap, CList, detach_from}
use zephyr_server.TplList.Chains.{Away, Distinct, Chain, Holds, Alone}
use zephyr_server.TplList.Sessions.{
  put_front, put_back, take_front, take_back, run, run_nodes, Allowed, run-Holds,
}
use zephyr_server.TplList.Middle.{detach_from-Holds}

abbrev links : Heap
links a =
    if a == 1
    then record { prev = none; next = some 2 }
    else if a == 2
    then record { prev = some 1; next = none }
    else record { prev = none; next = none }

abbrev pair : CList
pair = record { header = some 1; rear = some 2; size = 2 }

pair-Holds : Holds pair links (1 ∷ 2 ∷ [])
unfolding Chain Distinct Away
pair-Holds = record {
  header_first = refl;
  rear_last = refl;
  counted = refl;
  chained = (refl, refl, (refl, refl, tt));
  distinct = ((omega arith, tt), (tt, tt));
}

three-Away : Away 3 (1 ∷ 2 ∷ [])
unfolding Away
three-Away = (omega arith, (omega arith, tt))

abbrev triple_links : Heap
triple_links a =
    if a == 1
    then record { prev = none; next = some 2 }
    else if a == 2
    then record { prev = some 1; next = some 3 }
    else if a == 3
    then record { prev = some 2; next = none }
    else record { prev = none; next = none }

abbrev triple : CList
triple = record { header = some 1; rear = some 3; size = 3 }

triple-Holds : Holds triple triple_links (1 ∷ 2 ∷ 3 ∷ [])
unfolding Chain Distinct Away
triple-Holds = record {
  header_first = refl;
  rear_last = refl;
  counted = refl;
  chained = (refl, refl, (refl, refl, (refl, refl, tt)));
  distinct = ((omega arith, (omega arith, tt)), ((omega arith, tt), (tt, tt)));
}

detach_from-Holds_example :
    let (l', h') = detach_from triple 2 triple_links in Holds l' h' (1 ∷ 3 ∷ []) × Alone h' 2
detach_from-Holds_example =
    detach_from-Holds triple triple_links 1 2 3 [] [] triple-Holds (omega arith)

run-Holds_example :
    let calls = put_front 3 ∷ take_back ∷ put_back 4 ∷ take_front ∷ [] in
    let (os, l, h) = run calls pair links in
    let (os', ys) = run_nodes calls (1 ∷ 2 ∷ []) in
    (os ≡ os') × Holds l h ys × ((b : ℕ) → Away b ys → Alone h b)
unfolding Away Allowed
run-Holds_example =
    run-Holds (put_front 3 ∷ take_back ∷ put_back 4 ∷ take_front ∷ []) pair links (1 ∷ 2 ∷ [])
      pair-Holds (λ b away. others b away.0 away.1.0)
      (three-Away, (tt, ((omega arith, (omega arith, tt)), (tt, tt)))) (omega arith)
  where
    others : (b : ℕ) → b ≢ 1 → b ≢ 2 → Alone links b
    others b n m = ground arith
