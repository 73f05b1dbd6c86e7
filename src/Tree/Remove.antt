-- ===== src/Tree/Remove.antt =====
-- tree.ts, `removeNode`: the node that it cuts out takes its subtree along, and nothing else goes.
use ragbag.Common.{
  ℕ, ◌≡◌, refl, Bool, true, false, ◌||◌, List, [], ◌∷◌, ◌++◌, arith, ◌==◌, ==_iff, append_assoc, In,
  Bool-cases, inl, inr, sym, ap, ◌∙◌,
}
use ragbag.Tree.Defs.{
  NodeInfo, TreeNode, leaf, branch, Nodes, nil, cons, info, has_ref, splice, remove_or, after_child,
  remove_below, remove_node,
}
use ragbag.Tree.Preorder.{preorder, preorders, refs_of, refs_of-append}

abbrev pub refs : Nodes → List ℕ
refs ns = refs_of (preorders ns)

abbrev pub has : ℕ → List ℕ → Bool
has target [] = false
has target (r ∷ rs) = r == target || has target rs

has-append : (t : ℕ) (xs ys : List ℕ) → has t (xs ++ ys) ≡ (has t xs || has t ys)
has-append t [] ys = refl
has-append t (x ∷ xs) ys = ground (arith, has-append t xs ys)

refs-cons : (n : TreeNode) (ns : Nodes) → refs (cons n ns) ≡ refs_of (preorder n) ++ refs ns
unfolding preorders
refs-cons n ns = refs_of-append (preorder n) (preorders ns)

refs-leaf : (i : NodeInfo) (ns : Nodes) → refs (cons (leaf i) ns) ≡ i.ref ∷ refs ns
unfolding preorders
refs-leaf i ns = refl

refs-branch :
    (i : NodeInfo) (kids ns : Nodes)
    → refs (cons (branch i kids) ns) ≡ i.ref ∷ (refs kids ++ refs ns)
unfolding preorders
refs-branch i kids ns = ap (λ rs. i.ref ∷ rs) (refs_of-append (preorders kids) (preorders ns))

In-later : (n : TreeNode) (ms ns : List TreeNode) → In n ns → In n (ms ++ ns)
In-later n [] ns h = h
In-later n (m ∷ ms) ns h = inr (In-later n ms ns h)

In-earlier : (n : TreeNode) (ms ns : List TreeNode) → In n ms → In n (ms ++ ns)
In-earlier n [] ns h = absurd h
In-earlier n (m ∷ ms) ns (inl e) = inl e
In-earlier n (m ∷ ms) ns (inr later) = inr (In-earlier n ms ns later)

In-preorder : (n : TreeNode) → In n (preorder n)
unfolding preorder
In-preorder (leaf i) = inl refl
In-preorder (branch i kids) = inl refl

preorders-leaf : (i : NodeInfo) (ns : Nodes) → preorders (cons (leaf i) ns) ≡ leaf i ∷ preorders ns
unfolding preorders
preorders-leaf i ns = refl

preorders-branch :
    (i : NodeInfo) (kids ns : Nodes)
    → preorders (cons (branch i kids) ns) ≡ branch i kids ∷ (preorders kids ++ preorders ns)
unfolding preorders
preorders-branch i kids ns = refl

-- `after` is `before` without one stretch: the subtree below one of the nodes, whose address is the target's.
pub record IsCut (target : ℕ) (nodes : List TreeNode) (before after : List ℕ) : Type 0 where
  pub left : List ℕ
  pub right : List ℕ
  pub cut : TreeNode
  pub there : In cut nodes
  pub root : (info cut).ref ≡ target
  pub whole : before ≡ left ++ (refs_of (preorder cut) ++ right)
  pub rest : after ≡ left ++ right

IsCut-after :
    (t : ℕ) (l b a : List ℕ) (ms ns : List TreeNode)
    → IsCut t ns b a
    → IsCut t (ms ++ ns) (l ++ b) (l ++ a)
IsCut-after t l b a ms ns c = record {
  there = In-later c.cut ms ns c.there;
  left = l ++ c.left;
  right = c.right;
  cut = c.cut;
  root = c.root;
  whole =
      ap (λ x. l ++ x) c.whole ∙ sym (append_assoc l c.left (refs_of (preorder c.cut) ++ c.right));
  rest = ap (λ x. l ++ x) c.rest ∙ sym (append_assoc l c.left c.right);
}

IsCut-before :
    (t : ℕ) (r b a : List ℕ) (ms ns : List TreeNode)
    → IsCut t ms b a
    → IsCut t (ms ++ ns) (b ++ r) (a ++ r)
IsCut-before t r b a ms ns c = record {
  there = In-earlier c.cut ms ns c.there;
  left = c.left;
  right = c.right ++ r;
  cut = c.cut;
  root = c.root;
  whole = ap (λ x. x ++ r) c.whole ∙ simp append_assoc;
  rest = ap (λ x. x ++ r) c.rest ∙ append_assoc c.left c.right r;
}

-- The outcome of a removal: one subtree is cut out, or nothing is and no node is the target.
abbrev pub Removes : ℕ → Nodes → Nodes × Bool → Type 0
Removes target before (after, true) = IsCut target (preorders before) (refs before) (refs after)
Removes target before (after, false) = (after ≡ before) × (has target (refs before) ≡ false)

splice-IsCut :
    (t : ℕ) (ns : Nodes)
    → has_ref t ns ≡ true
    → IsCut t (preorders ns) (refs ns) (refs (splice t ns))
unfolding preorders
splice-IsCut t nil h = cc
splice-IsCut t (cons n ns) h = elim (Bool-cases ((info n).ref == t)) [
  | inl here ↦ rw here (record {
    left = [];
    right = refs ns;
    cut = n;
    there = In-earlier n (preorder n) (preorders ns) (In-preorder n);
    root = (==_iff _ _).0 here;
    whole = refs-cons n ns;
    rest = refl;
  })
  | inr later ↦
      rw (later, refs-cons n ns, refs-cons n (splice t ns))
        (IsCut-after t (refs_of (preorder n)) (refs ns) (refs (splice t ns)) (preorder n)
          (preorders ns) (splice-IsCut t ns (ground arith)))
]

remove_or-Removes :
    (t : ℕ) (ns : Nodes) (below : Nodes × Bool)
    → (has_ref t ns ≡ false → Removes t ns below)
    → Removes t ns (remove_or t ns below)
remove_or-Removes t ns below h = elim (Bool-cases (has_ref t ns)) [
  | inl here ↦ rw here (splice-IsCut t ns here)
  | inr not_here ↦ rw not_here (h not_here)
]

after_child-Removes :
    (t : ℕ) (i : NodeInfo) (kids rest : Nodes) (inner later : Nodes × Bool)
    → (i.ref == t) ≡ false
    → Removes t kids inner
    → Removes t rest later
    → Removes t
        (cons (branch i kids) rest)
        (after_child (branch i kids) (branch i) rest inner later)
after_child-Removes t i kids rest (kids', true) later ne c l =
    rw (refs-branch i kids rest, refs-branch i kids' rest, preorders-branch i kids rest)
      (IsCut-after t (i.ref ∷ []) (refs kids ++ refs rest) (refs kids' ++ refs rest)
        (branch i kids ∷ []) (preorders kids ++ preorders rest)
        (IsCut-before t (refs rest) (refs kids) (refs kids') (preorders kids) (preorders rest) c))
after_child-Removes t i kids rest (kids', false) (rest', true) ne c l =
    rw (refs-branch i kids rest, refs-branch i kids rest', preorders-branch i kids rest)
      (IsCut-after t (i.ref ∷ refs kids) (refs rest) (refs rest') (branch i kids ∷ preorders kids)
        (preorders rest) l)
after_child-Removes t i kids rest (kids', false) (rest', false) ne c l = (
  ap (cons (branch i kids)) l.0,
  rw (refs-branch i kids rest, ne, has-append t (refs kids) (refs rest), c.1, l.1) refl,
)

after_leaf-Removes :
    (t : ℕ) (i : NodeInfo) (ns : Nodes) (later : Nodes × Bool)
    → (i.ref == t) ≡ false
    → Removes t ns later
    → Removes t (cons (leaf i) ns) (cons (leaf i) later.0, later.1)
after_leaf-Removes t i ns (ns', true) ne c =
    rw (refs-leaf i ns, refs-leaf i ns', preorders-leaf i ns)
      (IsCut-after t (i.ref ∷ []) (refs ns) (refs ns') (leaf i ∷ []) (preorders ns) c)
after_leaf-Removes t i ns (ns', false) ne c = (ap (cons (leaf i)) c.0, rw (refs-leaf i ns, ne) c.1)

remove_below-Removes :
    (t : ℕ) (ns : Nodes) → has_ref t ns ≡ false → Removes t ns (remove_below t ns)
unfolding remove_below preorders
remove_below-Removes t nil h = (refl, refl)
remove_below-Removes t (cons (leaf i) ns) h =
    after_leaf-Removes t i ns (remove_below t ns) (ground arith)
      (remove_below-Removes t ns (ground arith))
remove_below-Removes t (cons (branch i kids) ns) h =
    after_child-Removes t i kids ns (remove_or t kids (remove_below t kids)) (remove_below t ns)
      (ground arith) (remove_or-Removes t kids (remove_below t kids) (remove_below-Removes t kids))
      (remove_below-Removes t ns (ground arith))

-- `removeNode` reports true and cuts out exactly one subtree, with the target object at its root and
-- the other nodes left in order; or it reports false, the tree is as it was, and no node of it is
-- the target.
pub remove_node-Removes :
    (target : ℕ) (nodes : Nodes) → Removes target nodes (remove_node target nodes)
unfolding remove_node
remove_node-Removes t ns = remove_or-Removes t ns (remove_below t ns) (remove_below-Removes t ns)
