-- ===== src/Tree/Tests.antt =====
-- tree.ts on a small tree, and the theorems at it.
use ragbag.Common.{
  ℕ, ◌≡◌, refl, String, true, false, Option, none, some, [], ◌∷◌, any, ◌==◌, find, includes,
  IsDistinct,
}
use ragbag.Tree.Defs.{
  NodeInfo, TreeNode, leaf, branch, Nodes, nil, cons, info, has_id, remove_node, total_new_count,
  flatten_tree, find_node, path_to_node, collect_subtree_ids, is_descendant_or_self,
}
use ragbag.Tree.Preorder.{preorder, preorders, ids_of}
use ragbag.Tree.Build.{
  CollectionInfo, Collection, collection, empty, with_child, infos, expected, unplaced,
  collection_to_tree_node, unplaced-collection_to_tree_node,
}
use ragbag.Tree.Find.{
  find_node-eq-find, last_of, last_of-path_to_node, nodes_of, IsPathFrom, path_to_node-IsPathFrom,
}
use ragbag.Tree.Remove.{Removes, remove_node-Removes}
use ragbag.Tree.Subtree.{
  is_descendant_or_self-eq-any, option_ids, option_ids-flatten_tree, collect_subtree_ids_set,
}

abbrev make : ℕ → String → Option ℕ → NodeInfo
make ref id new = record {
  ref = ref;
  id = some id;
  label = id;
  href = none;
  path = none;
  restricted = none;
  bookmark_count = none;
  locked = none;
  new_count = new;
  icon = none;
}

abbrev c_node : TreeNode
c_node = leaf (make 3 "c" (some 4))

abbrev a_node : TreeNode
a_node = branch (make 1 "a" (some 2)) (cons (leaf (make 2 "b" none)) (cons c_node nil))

abbrev forest : Nodes
forest = cons a_node (cons (leaf (make 4 "d" (some 1))) nil)

forest_runs :
    (total_new_count a_node ≡ 6)
    × (path_to_node forest "c" ≡ a_node ∷ c_node ∷ [])
    × (collect_subtree_ids a_node ≡ "a" ∷ "b" ∷ "c" ∷ [])
    × ((remove_node 3 forest).1 ≡ true)
    × ((remove_node 9 forest).1 ≡ false)
unfolding total_new_count path_to_node collect_subtree_ids remove_node
forest_runs = (refl, refl, refl, refl, refl)

find_node-eq-find_example :
    find_node forest "c" ≡ find (λ n. has_id (info n) "c") (preorders forest)
find_node-eq-find_example = find_node-eq-find forest "c"

last_of-path_to_node_example : last_of (path_to_node forest "c") ≡ find_node forest "c"
last_of-path_to_node_example = last_of-path_to_node forest "c"

path_to_node-IsPathFrom_example : IsPathFrom (nodes_of forest) (path_to_node forest "c")
path_to_node-IsPathFrom_example = path_to_node-IsPathFrom forest "c"

remove_node-Removes_example : Removes 3 forest (remove_node 3 forest)
remove_node-Removes_example = remove_node-Removes 3 forest

is_descendant_or_self-eq-any_example :
    is_descendant_or_self a_node 3 ≡ any (λ m. (info m).ref == 3) (preorder a_node)
is_descendant_or_self-eq-any_example = is_descendant_or_self-eq-any a_node 3

option_ids-flatten_tree_example : option_ids (flatten_tree forest 0) ≡ ids_of (preorders forest)
option_ids-flatten_tree_example = option_ids-flatten_tree forest 0

collect_subtree_ids_set_example :
    IsDistinct (collect_subtree_ids a_node)
    × ((id : String)
        → includes (collect_subtree_ids a_node) id ≡ includes (ids_of (preorder a_node)) id)
collect_subtree_ids_set_example = collect_subtree_ids_set a_node

abbrev gifts : CollectionInfo
gifts = record {
  id = "g";
  name = "Gifts";
  restricted = some true;
  bookmark_count = some 3;
  new_count = none;
  shared = some true;
  locked = some false;
}

abbrev gift_tree : Collection
gift_tree = collection gifts (with_child (collection (record gifts { id = "h" }) empty) empty)

abbrev link_to : String → String → String
link_to space id = id

unplaced-collection_to_tree_node_example :
    unplaced (preorder (collection_to_tree_node link_to "s" 5 gift_tree).0)
    ≡ expected link_to "s" (infos gift_tree)
unplaced-collection_to_tree_node_example = unplaced-collection_to_tree_node link_to "s" 5 gift_tree
