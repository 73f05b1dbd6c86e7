-- ===== src/Tree/Subtree.antt =====
-- tree.ts: what is computed over a whole subtree agrees with the list of its nodes in preorder.
use ragbag.Common.{
  ℕ, suc, ◌≡◌, refl, String, Bool, true, false, ◌||◌, List, [], ◌∷◌, ◌++◌, arith, any, ◌==◌, ◌===◌,
  append-nil, append_assoc, includes, includes-append, IsDistinct, Bool-cases, inl, inr, eq_iff,
  sym,
}
use ragbag.Tree.Defs.{
  NodeInfo, TreeNode, leaf, branch, Nodes, nil, cons, info, total_new_count, total_new_counts,
  FlatTreeOption, own_option, flatten_tree, own_id, add_id, add_all, collect_subtree_ids,
  collect_children, is_descendant_or_self, some_descendant,
}
use ragbag.Tree.Preorder.{preorder, preorders, ids_of, ids_of-append, sum_new, sum_new-append}

mutual
  unfolding total_new_count preorder

  total_new_count_tree : (n : TreeNode) → total_new_count n ≡ sum_new (preorder n)
  total_new_count_tree (leaf i) = omega arith
  total_new_count_tree (branch i kids) = omega (arith, total_new_count_nodes kids)

  total_new_count_nodes : (ns : Nodes) → total_new_counts ns ≡ sum_new (preorders ns)
  total_new_count_nodes nil = refl
  total_new_count_nodes (cons n ns) = omega (
    arith,
    total_new_count_tree n,
    total_new_count_nodes ns,
    sum_new-append (preorder n) (preorders ns),
  )

-- `totalNewCount` is the sum of the counts of the node and of everything below it.
total_new_count-eq-sum : (n : TreeNode) → total_new_count n ≡ sum_new (preorder n)
total_new_count-eq-sum n = total_new_count_tree n

any-append :
    (p : TreeNode → Bool) (xs ys : List TreeNode) → any p (xs ++ ys) ≡ (any p xs || any p ys)
any-append p [] ys = refl
any-append p (x ∷ xs) ys = ground (arith, any-append p xs ys)

mutual
  unfolding is_descendant_or_self preorder

  is_descendant_tree :
      (n : TreeNode) (target : ℕ)
      → is_descendant_or_self n target ≡ any (λ m. (info m).ref == target) (preorder n)
  is_descendant_tree (leaf i) target = ground arith
  is_descendant_tree (branch i kids) target = rw (is_descendant_nodes kids target)

  is_descendant_nodes :
      (ns : Nodes) (target : ℕ)
      → some_descendant ns target ≡ any (λ m. (info m).ref == target) (preorders ns)
  is_descendant_nodes nil target = refl
  is_descendant_nodes (cons n ns) target = rw (
    is_descendant_tree n target,
    is_descendant_nodes ns target,
    any-append (λ m. (info m).ref == target) (preorder n) (preorders ns),
  )

-- `isDescendantOrSelf` holds exactly if one of the nodes of the ancestor's subtree, itself
-- included, is the target object.
pub is_descendant_or_self-eq-any :
    (n : TreeNode) (target : ℕ)
    → is_descendant_or_self n target ≡ any (λ m. (info m).ref == target) (preorder n)
is_descendant_or_self-eq-any n target = is_descendant_tree n target

abbrev pub option_ids : List FlatTreeOption → List String
option_ids [] = []
option_ids (o ∷ os) = o.id ∷ option_ids os

option_ids-append :
    (xs ys : List FlatTreeOption) → option_ids (xs ++ ys) ≡ option_ids xs ++ option_ids ys
option_ids-append [] ys = refl
option_ids-append (x ∷ xs) ys = rw (option_ids-append xs ys)

option_ids-own_option : (i : NodeInfo) (d : ℕ) → option_ids (own_option i d) ≡ own_id i
option_ids-own_option i d = ground arith

-- `flattenTree` lists the nodes that have an id in preorder, whatever the depth that it starts from.
pub option_ids-flatten_tree :
    (ns : Nodes) (d : ℕ) → option_ids (flatten_tree ns d) ≡ ids_of (preorders ns)
unfolding flatten_tree preorders
option_ids-flatten_tree nil d = refl
option_ids-flatten_tree (cons (leaf i) ns) d =
    simp (option_ids-append, option_ids-own_option, option_ids-flatten_tree ns d)
option_ids-flatten_tree (cons (branch i kids) ns) d = simp (
  option_ids-append,
  option_ids-own_option,
  option_ids-flatten_tree kids (suc d),
  option_ids-flatten_tree ns d,
  ids_of-append,
  append_assoc,
)

includes_of_eq :
    (ids : List String) (a b : String)
    → includes ids a ≡ true
    → (includes ids b || a === b) ≡ includes ids b
includes_of_eq ids a b h = elim (Bool-cases (a === b)) [
  | inl same ↦ rw (← (eq_iff a b).0 same, h)
  | inr other ↦ rw other (ground arith)
]

includes-add_id :
    (ids : List String) (a b : String) → includes (add_id ids a) b ≡ (includes ids b || a === b)
includes-add_id ids a b = elim (Bool-cases (includes ids a)) [
  | inl old ↦ rw old (sym (includes_of_eq ids a b old))
  | inr new ↦ rw (new, includes-append ids (a ∷ []) b) (ground arith)
]

includes-add_all :
    (ids xs : List String) (b : String)
    → includes (add_all ids xs) b ≡ (includes ids b || includes xs b)
includes-add_all ids [] b = ground arith
includes-add_all ids (x ∷ xs) b =
    rw (includes-add_all (add_id ids x) xs b, includes-add_id ids x b) (ground arith)

mutual
  unfolding collect_subtree_ids preorder

  includes_tree :
      (n : TreeNode) (b : String)
      → includes (collect_subtree_ids n) b ≡ includes (ids_of (preorder n)) b
  includes_tree (leaf i) b = rw append-nil
  includes_tree (branch i kids) b =
      rw (includes_nodes (own_id i) kids b, includes-append (own_id i) (ids_of (preorders kids)) b)

  includes_nodes :
      (ids : List String) (ns : Nodes) (b : String)
      → includes (collect_children ids ns) b
        ≡ (includes ids b || includes (ids_of (preorders ns)) b)
  includes_nodes ids nil b = ground arith
  includes_nodes ids (cons n ns) b =
      rw
        (
          includes_nodes (add_all ids (collect_subtree_ids n)) ns b,
          includes-add_all ids (collect_subtree_ids n) b,
          includes_tree n b,
          ids_of-append (preorder n) (preorders ns),
          includes-append (ids_of (preorder n)) (ids_of (preorders ns)) b,
        )
        (ground arith)

IsDistinct-append_one :
    (ids : List String) (a : String)
    → includes ids a ≡ false
    → IsDistinct ids
    → IsDistinct (ids ++ a ∷ [])
IsDistinct-append_one [] a h d = (refl, tt)
IsDistinct-append_one (x ∷ xs) a h (new, d) = (
  rw (includes-append xs (a ∷ []) x, new) (ground (arith, eq_iff a x, eq_iff x a)),
  IsDistinct-append_one xs a (ground arith) d,
)

IsDistinct-add_id : (ids : List String) (a : String) → IsDistinct ids → IsDistinct (add_id ids a)
IsDistinct-add_id ids a d = elim (Bool-cases (includes ids a)) [
  | inl old ↦ rw old d
  | inr new ↦ rw new (IsDistinct-append_one ids a new d)
]

IsDistinct-add_all : (ids xs : List String) → IsDistinct ids → IsDistinct (add_all ids xs)
IsDistinct-add_all ids [] d = d
IsDistinct-add_all ids (x ∷ xs) d = IsDistinct-add_all (add_id ids x) xs (IsDistinct-add_id ids x d)

IsDistinct-own_id : (i : NodeInfo) → IsDistinct (own_id i)
IsDistinct-own_id i = ground arith

mutual
  unfolding collect_subtree_ids

  IsDistinct-tree : (n : TreeNode) → IsDistinct (collect_subtree_ids n)
  IsDistinct-tree (leaf i) = IsDistinct-own_id i
  IsDistinct-tree (branch i kids) = IsDistinct-nodes (own_id i) kids (IsDistinct-own_id i)

  IsDistinct-nodes :
      (ids : List String) (ns : Nodes) → IsDistinct ids → IsDistinct (collect_children ids ns)
  IsDistinct-nodes ids nil d = d
  IsDistinct-nodes ids (cons n ns) d =
      IsDistinct-nodes (add_all ids (collect_subtree_ids n)) ns
        (IsDistinct-add_all ids (collect_subtree_ids n) d)

-- `collectSubtreeIds` returns a set, in which no id is listed twice, and an id is in it exactly if a
-- node of the subtree has it (empty ids are left out on both sides).
pub collect_subtree_ids_set :
    (n : TreeNode)
    → IsDistinct (collect_subtree_ids n)
      × ((id : String) → includes (collect_subtree_ids n) id ≡ includes (ids_of (preorder n)) id)
collect_subtree_ids_set n = (IsDistinct-tree n, includes_tree n)
