-- ===== src/TplMultiMap/Tests.antt =====
-- The tree with siblings at concrete items: a node of key 10 with two siblings, and one of key 20.
use zephyr_server.Common.{ℕ, ◌≡◌, refl, inr, some, List, [], ◌∷◌, ltb, if◌then◌else◌, arith}
use zephyr_server.TplMap.{Item, null, node}
use mathlib.Core.Option
use zephyr_server.TplMap.Walk
use zephyr_server.TplMap.Order.{to_list}
use zephyr_server.TplMap.Lists.{find_item}
use zephyr_server.TplMultiMap.{
  Sibling, Group, Code, success, fail, MultiMap, find_sibling, hold, add_in_tree, head_of, first,
  remove_from_tree_item,
}
use zephyr_server.TplMultiMap.Entries.{erase_entry}
use zephyr_server.TplMultiMap.Add.{items, Valid, add_item, held_after, items-add_in_tree}
use zephyr_server.TplMultiMap.Erase.{Has}
use zephyr_server.TplMultiMap.Remove.{items-remove_from_tree_item}
use zephyr_server.TplMultiMap.Orphans.{remove_tree_node-orphans}
use zephyr_server.TplMultiMap.Walk.{at_node, walk, walk-entries}
use zephyr_server.TplMultiMap.Queue.{AtLeast, first-remove}

abbrev thing : ℕ → ℕ → Item (Unit {0})
thing a k = record { addr = a; key = k; item = tt }

-- The third item of key 10 was added last.
abbrev two : List (Sibling (Unit {0}))
two =
    record { self = thing 3 10; parent = 1; node_size = 2 }
    ∷ record { self = thing 2 10; parent = 1; node_size = 0 }
    ∷ []

abbrev ten : Item (Group (Unit {0}))
ten = record { addr = 1; key = 10; item = record { payload = tt; siblings = two } }

abbrev twenty : Item (Group (Unit {0}))
twenty = record { addr = 4; key = 20; item = record { payload = tt; siblings = [] } }

-- The map stands at 77 and holds the nodes from 1 to 4.
abbrev four : MultiMap (Unit {0})
four = record {
  this = 77;
  tree = node null ten 1 (node null twenty 0 null);
  holder = λ a. if ltb a 5 then 77 else 0;
}

four-Valid : Valid four
unfolding head_of
four-Valid = record {
  keeps = record { sized = omega arith; sorted = omega arith };
  proper = omega arith;
  held = (refl, (refl, (refl, (refl, tt))));
  distinct = omega arith;
  here = omega arith;
}

find_ten : find_item (to_list four.tree) 10 ≡ some ten
unfolding find_item
find_ten = refl

items-add_in_tree_example :
    (c : Code) × (m' : MultiMap (Unit {0})) × (add_in_tree (some (thing 9 10)) four ≡ some (c, m'))
    × ((c, items m') ≡ add_item (thing 9 10) four)
    × (m'.this ≡ 77)
    × (m'.holder ≡ held_after (thing 9 10) four)
    × Valid m'
items-add_in_tree_example = items-add_in_tree (thing 9 10) four four-Valid

items-remove_from_tree_item_example :
    (m' : MultiMap (Unit {0})) × (remove_from_tree_item (thing 2 10) four ≡ some (success, m'))
    × (items m' ≡ erase_entry (thing 2 10) (items four))
    × (m'.this ≡ 77)
    × (m'.holder ≡ hold 2 0 four.holder)
    × Valid m'
unfolding find_sibling
items-remove_from_tree_item_example =
    items-remove_from_tree_item (thing 2 10) four ten four-Valid find_ten
      (inr (omega arith, record { self = thing 2 10; parent = 1; node_size = 0 }, refl, refl))

remove_tree_node-orphans_example :
    (m' m'' : MultiMap (Unit {0})) × (remove_from_tree_item (thing 1 10) four ≡ some (success, m'))
    × (remove_from_tree_item (thing 2 10) m' ≡ some (fail, m''))
    × (m''.tree ≡ m'.tree)
    × Has (thing 2 10) (items m'')
    × (m''.holder 2 ≡ 0)
unfolding find_sibling
remove_tree_node-orphans_example =
    remove_tree_node-orphans (thing 1 10) four ten
      (record { self = thing 3 10; parent = 1; node_size = 2 })
      (record { self = thing 2 10; parent = 1; node_size = 0 })
      (record { self = thing 2 10; parent = 1; node_size = 0 } ∷ []) four-Valid find_ten refl refl
      refl refl refl

first-remove_example :
    (first four ≡ some (thing 1 10))
    × AtLeast 10 (thing 3 10 ∷ thing 2 10 ∷ thing 4 20 ∷ [])
    × (m' : MultiMap (Unit {0})) × (remove_from_tree_item (thing 1 10) four ≡ some (success, m'))
    × (items m' ≡ thing 3 10 ∷ thing 2 10 ∷ thing 4 20 ∷ [])
    × (m'.this ≡ 77)
    × (m'.holder ≡ hold 1 0 four.holder)
    × Valid m'
unfolding head_of
first-remove_example =
    first-remove four (thing 1 10) (thing 3 10 ∷ thing 2 10 ∷ thing 4 20 ∷ []) four-Valid refl

walk-entries_example :
    walk 4 (Option.map at_node (Walk.start four.tree))
    ≡ thing 1 10 ∷ thing 3 10 ∷ thing 2 10 ∷ thing 4 20 ∷ []
unfolding head_of
walk-entries_example = walk-entries four.tree 4 (omega arith) (omega arith)
