-- ===== src/Tree/Defs.antt =====
-- ui/v1/src/lib/components/tree.ts: the nodes, and the functions that search, flatten and cut them.
use ragbag.Common.{
  ℕ, suc, ◌+◌, String, Bool, true, false, ◌||◌, Option, none, some, List, [], ◌∷◌, ◌++◌, ◌==◌,
  ◌===◌, if◌then◌else◌, truthy, nullish_or, includes,
}

pub data Icon : Type 0 where
  eye_slash lock globe folder : Icon

-- The fields of `TreeNode` other than `children`; `ref` is the object's address.
pub record NodeInfo : Type 0 where
  pub ref : ℕ
  pub id : Option String
  pub label : String
  pub href : Option String
  pub path : Option String
  pub restricted : Option Bool
  pub bookmark_count : Option ℕ
  pub locked : Option Bool
  pub new_count : Option ℕ
  pub icon : Option Icon

mutual
  pub data TreeNode : Type 0 where
    leaf : NodeInfo → TreeNode
    branch : NodeInfo → Nodes → TreeNode

  pub data Nodes : Type 0 where
    nil : Nodes
    cons : TreeNode → Nodes → Nodes

abbrev pub info : TreeNode → NodeInfo
info (leaf i) = i
info (branch i kids) = i

-- `nodes.indexOf(target) !== -1`
abbrev pub has_ref : ℕ → Nodes → Bool
has_ref target nil = false
has_ref target (cons n ns) = (info n).ref == target || has_ref target ns

-- `nodes.splice(nodes.indexOf(target), 1)`
abbrev pub splice : ℕ → Nodes → Nodes
splice target nil = nil
splice target (cons n ns) = if (info n).ref == target then ns else cons n (splice target ns)

-- `removeNode` on one list of nodes, given the result of its loop over their children.
abbrev pub remove_or : ℕ → Nodes → Nodes × Bool → Nodes × Bool
remove_or target nodes below = if has_ref target nodes then (splice target nodes, true) else below

-- The result of one round of the loop: stop where the node was found, else go on with the rest.
abbrev pub after_child :
    TreeNode → (Nodes → TreeNode) → Nodes → Nodes × Bool → Nodes × Bool → Nodes × Bool
after_child n rebuilt rest (kids, true) later = (cons (rebuilt kids) rest, true)
after_child n rebuilt rest (kids, false) (rest', found) = (cons n rest', found)

-- The loop `for (const node of nodes) if (node.children && removeNode(node.children, target)) …`.
unfoldable pub remove_below : ℕ → Nodes → Nodes × Bool
remove_below target nil = (nil, false)
remove_below target (cons (leaf i) ns) =
    let (ns', found) = remove_below target ns in (cons (leaf i) ns', found)
remove_below target (cons (branch i kids) ns) =
    after_child (branch i kids) (branch i) ns (remove_or target kids (remove_below target kids))
      (remove_below target ns)

-- `removeNode`: the array after the call, and its result.
unfoldable pub remove_node : ℕ → Nodes → Nodes × Bool
unfolding remove_below
remove_node target nodes = remove_or target nodes (remove_below target nodes)

unfoldable mutual
  pub total_new_count : TreeNode → ℕ
  total_new_count (leaf i) = nullish_or i.new_count 0
  total_new_count (branch i kids) = nullish_or i.new_count 0 + total_new_counts kids

  -- `children.reduce((sum, child) => sum + totalNewCount(child), 0)`
  pub total_new_counts : Nodes → ℕ
  total_new_counts nil = 0
  total_new_counts (cons n ns) = total_new_count n + total_new_counts ns

pub record FlatTreeOption : Type 0 where
  pub id : String
  pub label : String
  pub depth : ℕ

-- `if (node.id) result.push({ id: node.id, label: node.label, depth })`
abbrev pub own_option : NodeInfo → ℕ → List FlatTreeOption
own_option i depth = elim i.id [
  | none ↦ []
  | some id ↦
      if truthy (some id) then record { id = id; label = i.label; depth = depth } ∷ [] else []
]

unfoldable pub flatten_tree : Nodes → ℕ → List FlatTreeOption
flatten_tree nil depth = []
flatten_tree (cons (leaf i) ns) depth = own_option i depth ++ flatten_tree ns depth
flatten_tree (cons (branch i kids) ns) depth =
    own_option i depth ++ (flatten_tree kids (suc depth) ++ flatten_tree ns depth)

-- `node.id === id`
abbrev pub has_id : NodeInfo → String → Bool
has_id i id = elim i.id [ none ↦ false | some own ↦ own === id ]

abbrev pub first_found : Option TreeNode → Option TreeNode → Option TreeNode
first_found (some n) later = some n
first_found none later = later

unfoldable pub find_node : Nodes → String → Option TreeNode
find_node nil id = none
find_node (cons (leaf i) ns) id = if has_id i id then some (leaf i) else find_node ns id
find_node (cons (branch i kids) ns) id =
    if has_id i id then some (branch i kids) else first_found (find_node kids id) (find_node ns id)

-- `if (path.length > 0) return [node, ...path]`, else the next node.
abbrev pub extend_path : TreeNode → List TreeNode → List TreeNode → List TreeNode
extend_path n [] later = later
extend_path n (m ∷ path) later = n ∷ m ∷ path

unfoldable pub path_to_node : Nodes → String → List TreeNode
path_to_node nil id = []
path_to_node (cons (leaf i) ns) id = if has_id i id then leaf i ∷ [] else path_to_node ns id
path_to_node (cons (branch i kids) ns) id =
    if has_id i id
    then branch i kids ∷ []
    else extend_path (branch i kids) (path_to_node kids id) (path_to_node ns id)

-- `ids.add(id)` on a `Set`, which keeps the order of insertion.
abbrev pub add_id : List String → String → List String
add_id ids id = if includes ids id then ids else ids ++ id ∷ []

abbrev pub add_all : List String → List String → List String
add_all ids [] = ids
add_all ids (x ∷ xs) = add_all (add_id ids x) xs

abbrev pub own_id : NodeInfo → List String
own_id i = elim i.id [ none ↦ [] | some id ↦ if truthy (some id) then id ∷ [] else [] ]

unfoldable mutual
  pub collect_subtree_ids : TreeNode → List String
  collect_subtree_ids (leaf i) = own_id i
  collect_subtree_ids (branch i kids) = collect_children (own_id i) kids

  -- The loop over the children, which adds the ids of each to the set so far.
  pub collect_children : List String → Nodes → List String
  collect_children ids nil = ids
  collect_children ids (cons n ns) = collect_children (add_all ids (collect_subtree_ids n)) ns

unfoldable mutual
  pub is_descendant_or_self : TreeNode → ℕ → Bool
  is_descendant_or_self (leaf i) target = i.ref == target
  is_descendant_or_self (branch i kids) target = i.ref == target || some_descendant kids target

  -- `children.some((child) => isDescendantOrSelf(child, target))`
  pub some_descendant : Nodes → ℕ → Bool
  some_descendant nil target = false
  some_descendant (cons n ns) target = is_descendant_or_self n target || some_descendant ns target
