-- ===== src/Tree/Preorder.antt =====
-- The nodes of a tree in preorder, the reference against which the functions of tree.ts are read.
use ragbag.Common.{
  ℕ, ◌+◌, ◌≡◌, String, List, [], ◌∷◌, ◌++◌, arith, nullish_or, append_assoc, refl, sym,
}
use ragbag.Tree.Defs.{TreeNode, leaf, branch, Nodes, nil, cons, info, own_id}

unfoldable mutual
  pub preorder : TreeNode → List TreeNode
  preorder (leaf i) = leaf i ∷ []
  preorder (branch i kids) = branch i kids ∷ preorders kids

  pub preorders : Nodes → List TreeNode
  preorders nil = []
  preorders (cons n ns) = preorder n ++ preorders ns

-- The ids that are not empty, in the order of the nodes.
abbrev pub ids_of : List TreeNode → List String
ids_of [] = []
ids_of (n ∷ ns) = own_id (info n) ++ ids_of ns

pub ids_of-append : (xs ys : List TreeNode) → ids_of (xs ++ ys) ≡ ids_of xs ++ ids_of ys
ids_of-append [] ys = refl
ids_of-append (x ∷ xs) ys =
    rw (ids_of-append xs ys) (sym (append_assoc (own_id (info x)) (ids_of xs) (ids_of ys)))

-- The sum of the counts of new links.
abbrev pub sum_new : List TreeNode → ℕ
sum_new [] = 0
sum_new (n ∷ ns) = nullish_or (info n).new_count 0 + sum_new ns

pub sum_new-append : (xs ys : List TreeNode) → sum_new (xs ++ ys) ≡ sum_new xs + sum_new ys
sum_new-append [] ys = omega arith
sum_new-append (x ∷ xs) ys = omega (arith, sum_new-append xs ys)

-- The addresses of the nodes, in preorder.
abbrev pub refs_of : List TreeNode → List ℕ
refs_of [] = []
refs_of (n ∷ ns) = (info n).ref ∷ refs_of ns

pub refs_of-append : (xs ys : List TreeNode) → refs_of (xs ++ ys) ≡ refs_of xs ++ refs_of ys
refs_of-append [] ys = refl
refs_of-append (x ∷ xs) ys = rw (refs_of-append xs ys)
