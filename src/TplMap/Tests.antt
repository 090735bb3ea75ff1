-- ===== src/TplMap/Tests.antt =====
-- The tree at concrete items: ten keys in growing order, which calls for migrations to the left.
use zephyr_server.Common.{
  ℕ, ◌+◌, ◌≡◌, ◌≢◌, refl, Option, none, some, some≢none, ◌>>=◌, [], ◌∷◌, map, arith,
}
use zephyr_server.TplMap.{
  Item, Tree, null, node, get_tree_size, need_balance, need_rearrange, raise_mid_left,
  raise_mid_right, raise_left, raise_right, migrate_left, migrate_right, balance,
  migrate_left2right, migrate_right2left, find_node, root_item,
}
use zephyr_server.TplMap.Update.{
  single, add_child, add_below_right, add_below_left, add_left, add_right, add_node,
}
use zephyr_server.TplMap.Facade.{Code, success, fail, safe_add_node, add_in_tree, remove_from_tree}
use zephyr_server.TplMap.Order.{to_list, Sized}
use zephyr_server.TplMap.Lists.{find_item, erase_item}
use zephyr_server.TplMap.Insert.{Takes}
use zephyr_server.TplMap.RemoveHere.{Keeps}
use zephyr_server.TplMap.Refine.{
  add_item, add_in_tree_refines, remove_from_tree_refines, remove_absent_loses_tree,
}
use zephyr_server.TplMap.Walk.{Position, left_of}

-- An item with no payload, whose address is told by its key.
abbrev thing : ℕ → Item (Unit {0})
thing k = record { addr = 1000 + k; key = k; item = tt }

abbrev put : ℕ → Option (Tree (Unit {0})) → Option (Tree (Unit {0}))
put k o = o >>= λ t. (add_in_tree (some (thing k)) t >>= λ r. some r.1)

ten : Option (Tree (Unit {0}))
ten = put 10 (put 9 (put 8 (put 7 (put 6 (put 5 (put 4 (put 3 (put 2 (put 1 (some null))))))))))

-- 1 to 6 after a migration: 3 has come up.
abbrev six : Tree (Unit {0})
six =
    node (single (thing 1)) (thing 2) 5
      (node (single (thing 3)) (thing 4) 3 (node null (thing 5) 1 (single (thing 6))))

ten_keys :
    (ten >>= λ t. some (map (λ x. x.key) (to_list t)))
    ≡ some (1 ∷ 2 ∷ 3 ∷ 4 ∷ 5 ∷ 6 ∷ 7 ∷ 8 ∷ 9 ∷ 10 ∷ [])
unfolding ten add_in_tree safe_add_node add_node add_left add_right add_child add_below_left
    add_below_right find_node root_item need_rearrange get_tree_size migrate_right2left
    migrate_left2right migrate_right migrate_left balance need_balance raise_right raise_left
    raise_mid_left raise_mid_right
ten_keys = refl

six-Keeps : Keeps six
six-Keeps = omega arith

six-Takes : Takes (thing 9) six
six-Takes = omega arith

three-Present : find_item (to_list six) 3 ≢ none
unfolding find_item
three-Present = some≢none

add_in_tree_refines_example :
    (c : Code) × (u : Tree (Unit {0})) × (add_in_tree (some (thing 9)) six ≡ some (c, u))
    × ((c, to_list u) ≡ add_item (thing 9) (to_list six))
    × Sized u
add_in_tree_refines_example = add_in_tree_refines (thing 9) six six-Takes

remove_from_tree_refines_example :
    (u : Tree (Unit {0})) × (remove_from_tree (some (thing 2)) six ≡ some (success, u))
    × (to_list u ≡ erase_item 2 (to_list six))
    × Keeps u
unfolding find_item
remove_from_tree_refines_example =
    remove_from_tree_refines (thing 2) (thing 2) six six-Keeps refl refl

remove_absent_loses_tree_example : remove_from_tree (some (thing 9)) six ≡ some (fail, null)
unfolding find_item
remove_absent_loses_tree_example = remove_absent_loses_tree (thing 9) six tt six-Keeps.sorted refl

-- The node of 4, below the right link of the root.
abbrev at_three : Position (Unit {0})
at_three = record {
  left = null;
  item = thing 3;
  size = 0;
  right = null;
  parents = left_of (thing 4) 3 (node null (thing 5) 1 (single (thing 6))) ∷ [];
}
