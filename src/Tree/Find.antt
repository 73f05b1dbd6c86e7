-- ===== src/Tree/Find.antt =====
-- tree.ts, `findNode` and `pathToNode`: both stop at the first node in preorder that has the id.
use ragbag.Common.{
  ◌≡◌, refl, String, Bool, true, false, Option, none, some, List, [], ◌∷◌, ◌++◌, arith, find,
  if◌then◌else◌, inl, inr, In, sym, Bool-cases,
}
use ragbag.Tree.Defs.{
  TreeNode, leaf, branch, Nodes, nil, cons, info, has_id, first_found, find_node, extend_path,
  path_to_node,
}
use ragbag.Tree.Preorder.{preorders}

abbrev is_wanted : String → TreeNode → Bool
is_wanted id n = has_id (info n) id

find-append :
    (p : TreeNode → Bool) (xs ys : List TreeNode)
    → find p (xs ++ ys) ≡ first_found (find p xs) (find p ys)
find-append p [] ys = refl
find-append p (x ∷ xs) ys = ground (arith, find-append p xs ys)

-- `findNode` returns the first node, in preorder, whose id is the one asked for.
pub find_node-eq-find :
    (ns : Nodes) (id : String) → find_node ns id ≡ find (λ n. has_id (info n) id) (preorders ns)
unfolding find_node preorders
find_node-eq-find nil id = refl
find_node-eq-find (cons (leaf i) ns) id = ground (arith, find_node-eq-find ns id)
find_node-eq-find (cons (branch i kids) ns) id = ground (
  arith,
  find_node-eq-find ns id,
  find_node-eq-find kids id,
  find-append (is_wanted id) (preorders kids) (preorders ns),
)

abbrev pub last_of : List TreeNode → Option TreeNode
last_of [] = none
last_of (n ∷ []) = some n
last_of (n ∷ m ∷ path) = last_of (m ∷ path)

last_of-cons :
    (m : TreeNode) (path : List TreeNode) (later : Option TreeNode)
    → first_found (last_of (m ∷ path)) later ≡ last_of (m ∷ path)
last_of-cons m [] later = refl
last_of-cons m (k ∷ path) later = last_of-cons k path later

last_of-extend_path :
    (n : TreeNode) (path later : List TreeNode)
    → last_of (extend_path n path later) ≡ first_found (last_of path) (last_of later)
last_of-extend_path n [] later = refl
last_of-extend_path n (m ∷ path) later = sym (last_of-cons m path (last_of later))

-- The path that `pathToNode` returns ends in the node that `findNode` finds; where `findNode` finds
-- none, the path has no last node.
pub last_of-path_to_node :
    (ns : Nodes) (id : String) → last_of (path_to_node ns id) ≡ find_node ns id
unfolding find_node path_to_node
last_of-path_to_node nil id = refl
last_of-path_to_node (cons (leaf i) ns) id = ground (arith, last_of-path_to_node ns id)
last_of-path_to_node (cons (branch i kids) ns) id = elim (Bool-cases (has_id i id)) [
  | inl here ↦ rw here
  | inr below ↦
      rw (below, last_of-extend_path, last_of-path_to_node kids id, last_of-path_to_node ns id)
]

abbrev pub nodes_of : Nodes → List TreeNode
nodes_of nil = []
nodes_of (cons n ns) = n ∷ nodes_of ns

abbrev pub children_of : TreeNode → List TreeNode
children_of (leaf i) = []
children_of (branch i kids) = nodes_of kids

-- The first node of the path is one of `level`, and each further one a child of the one before it.
abbrev pub IsPathFrom : List TreeNode → List TreeNode → Type 0
IsPathFrom level [] = Unit
IsPathFrom level (n ∷ path) = In n level × IsPathFrom (children_of n) path

IsPathFrom-later :
    (level path : List TreeNode) (n : TreeNode)
    → IsPathFrom level path
    → IsPathFrom (n ∷ level) path
IsPathFrom-later level [] n h = tt
IsPathFrom-later level (m ∷ path) n h = (inr h.0, h.1)

IsPathFrom-extend_path :
    (n : TreeNode) (ns : List TreeNode) (path later : List TreeNode)
    → IsPathFrom (children_of n) path
    → IsPathFrom ns later
    → IsPathFrom (n ∷ ns) (extend_path n path later)
IsPathFrom-extend_path n ns [] later h k = IsPathFrom-later ns later n k
IsPathFrom-extend_path n ns (m ∷ path) later h k = (inl refl, h)

-- `pathToNode` walks down from a root, each further node being a child of the one before.
pub path_to_node-IsPathFrom :
    (ns : Nodes) (id : String) → IsPathFrom (nodes_of ns) (path_to_node ns id)
unfolding path_to_node
path_to_node-IsPathFrom nil id = tt
path_to_node-IsPathFrom (cons (leaf i) ns) id =
    elim (has_id i id)
      as (λ b. IsPathFrom (leaf i ∷ nodes_of ns) (if b then leaf i ∷ [] else path_to_node ns id)) [
        | true ↦ (inl refl, tt)
        | false ↦
            IsPathFrom-later (nodes_of ns) (path_to_node ns id) (leaf i)
              (path_to_node-IsPathFrom ns id)
      ]
path_to_node-IsPathFrom (cons (branch i kids) ns) id =
    elim (has_id i id)
      as (λ b. IsPathFrom (branch i kids ∷ nodes_of ns) (
        if b
        then branch i kids ∷ []
        else extend_path (branch i kids) (path_to_node kids id) (path_to_node ns id))) [
          | true ↦ (inl refl, tt)
          | false ↦
              IsPathFrom-extend_path (branch i kids) (nodes_of ns) (path_to_node kids id)
                (path_to_node ns id) (path_to_node-IsPathFrom kids id)
                (path_to_node-IsPathFrom ns id)
        ]
