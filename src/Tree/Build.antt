-- ===== src/Tree/Build.antt =====
-- tree.ts, `collectionToTreeNode` and `collectionsToTree`: from the collections that the server sends to
-- the nodes of the sidebar.
--
-- `href` comes from the router's `p`, a function of the package sv-router: a parameter here. Every
-- object literal is a new object, whose address is the next of a counter.
use ragbag.Common.{
  ℕ, zero, suc, ◌+◌, ◌≡◌, refl, String, Bool, true, false, Option, none, some, List, [], ◌∷◌, ◌++◌,
  arith, if◌then◌else◌, ap, ◌∙◌, length, length-append, ◌↔◌, ◌≢◌,
}
use Prim.Native.String
use ragbag.Tree.Defs.{
  Icon, eye_slash, lock, globe, folder, NodeInfo, TreeNode, leaf, branch, Nodes, nil, cons, info,
}
use Prim.Native.Nat.add
use native.Mathlib.Nat.{zero-add, add-zero}
use ragbag.Tree.Preorder.{preorder, preorders, refs_of, refs_of-append}

-- The fields of `CollectionDto` that the tree is built from, and its `children`.
pub record CollectionInfo : Type 0 where
  pub id : String
  pub name : String
  pub restricted : Option Bool
  pub bookmark_count : Option ℕ
  pub new_count : Option ℕ
  pub shared : Option Bool
  pub locked : Option Bool

mutual
  pub data Collection : Type 0 where
    collection : CollectionInfo → Collections → Collection

  -- `children`, undefined and [] alike: the code only looks at `children?.length`.
  pub data Collections : Type 0 where
    empty : Collections
    with_child : Collection → Collections → Collections

-- The collections in preorder.
mutual
  pub infos : Collection → List CollectionInfo
  infos (collection c kids) = c ∷ infos_below kids

  pub infos_below : Collections → List CollectionInfo
  infos_below empty = []
  infos_below (with_child c cs) = infos c ++ infos_below cs

-- `collection.locked` as a condition: undefined is false.
abbrev pub is_set : Option Bool → Bool
is_set none = false
is_set (some b) = b

pub icon_of : CollectionInfo → Icon
icon_of c =
    if is_set c.locked
    then eye_slash
    else if is_set c.restricted
    then lock
    else if is_set c.shared
    then globe
    else folder

infixr 64 ◌<+>◌
abbrev pub ◌<+>◌ : String → String → String
s <+> t = String.◌++◌ s t

-- The children, once mapped: an empty array is left out.
abbrev with_children : NodeInfo → Nodes → TreeNode
with_children i nil = leaf i
with_children i (cons n ns) = branch i (cons n ns)

module _ (p : String → String → String) (space_id : String) where
  -- The object literal, with the address `ref`; `p space_id id` stands for the call of the router's
  -- `p` with these two parameters.
  pub node_info : ℕ → CollectionInfo → NodeInfo
  unfolding icon_of
  node_info ref c = record {
    ref = ref;
    id = some c.id;
    label = c.name;
    href = some (p space_id c.id);
    path = some ("/space/" <+> space_id <+> "/collections/" <+> c.id);
    restricted = c.restricted;
    bookmark_count = c.bookmark_count;
    locked = c.locked;
    new_count = c.new_count;
    icon = some (icon_of c);
  }

  -- Each takes the counter of addresses and returns it advanced.
  mutual
    pub collection_to_tree_node : ℕ → Collection → TreeNode × ℕ
    collection_to_tree_node ref (collection c kids) =
        let (nodes, next) = collections_to_tree (suc ref) kids in
        (with_children (node_info ref c) nodes, next)

    pub collections_to_tree : ℕ → Collections → Nodes × ℕ
    collections_to_tree ref empty = (nil, ref)
    collections_to_tree ref (with_child c cs) =
        let (node, ref') = collection_to_tree_node ref c in
        let (nodes, next) = collections_to_tree ref' cs in (cons node nodes, next)

abbrev pub count_from : ℕ → ℕ → List ℕ
count_from ref zero = []
count_from ref (suc k) = ref ∷ count_from (suc ref) k

suc_shift : (r a : ℕ) → suc r + a ≡ r + suc a
suc_shift r a = omega arith

count_from-add : (r a b : ℕ) → count_from r (a + b) ≡ count_from r a ++ count_from (r + a) b
count_from-add r zero b = rw (zero-add b, add-zero r)
count_from-add r (suc a) b = rw (add.suc a b, count_from-add (suc r) a b, suc_shift r a)

abbrev pub unplaced : List TreeNode → List NodeInfo
unplaced [] = []
unplaced (n ∷ ns) = record (info n) { ref = 0 } ∷ unplaced ns

unplaced-append : (xs ys : List TreeNode) → unplaced (xs ++ ys) ≡ unplaced xs ++ unplaced ys
unplaced-append [] ys = refl
unplaced-append (x ∷ xs) ys = rw (unplaced-append xs ys)

preorder-with_children :
    (i : NodeInfo) (ns : Nodes)
    → unplaced (preorder (with_children i ns)) ≡ record i { ref = 0 } ∷ unplaced (preorders ns)
unfolding preorder
preorder-with_children i nil = refl
preorder-with_children i (cons n ns) = refl

refs-with_children :
    (i : NodeInfo) (ns : Nodes)
    → refs_of (preorder (with_children i ns)) ≡ i.ref ∷ refs_of (preorders ns)
unfolding preorder
refs-with_children i nil = refl
refs-with_children i (cons n ns) = refl

-- The icon by the three flags: the first that is true decides.
abbrev pub flagged : Option Bool → Option Bool → Option Bool → Icon
flagged (some true) restricted shared = eye_slash
flagged locked (some true) shared = lock
flagged locked restricted (some true) = globe
flagged locked restricted shared = folder

icon_of-flagged : (c : CollectionInfo) → icon_of c ≡ flagged c.locked c.restricted c.shared
unfolding icon_of
icon_of-flagged c = ground arith

module _ (p : String → String → String) (space_id : String) where
  -- The nodes that the sidebar is to show, without addresses.
  abbrev pub expected : List CollectionInfo → List NodeInfo
  expected [] = []
  expected (c ∷ cs) =
      record {
        ref = 0;
        id = some c.id;
        label = c.name;
        href = some (p space_id c.id);
        path = some ("/space/" <+> space_id <+> "/collections/" <+> c.id);
        restricted = c.restricted;
        bookmark_count = c.bookmark_count;
        locked = c.locked;
        new_count = c.new_count;
        icon = some (flagged c.locked c.restricted c.shared);
      }
      ∷ expected cs

  expected-append : (xs ys : List CollectionInfo) → expected (xs ++ ys) ≡ expected xs ++ expected ys
  expected-append [] ys = refl
  expected-append (x ∷ xs) ys = rw (expected-append xs ys)

  mutual
    unfolding collection_to_tree_node node_info infos preorder

    unplaced_node :
        (ref : ℕ) (c : Collection)
        → unplaced (preorder (collection_to_tree_node p space_id ref c).0) ≡ expected (infos c)
    unplaced_node ref (collection c kids) = rw (
      ← icon_of-flagged c,
      preorder-with_children (node_info p space_id ref c)
          (collections_to_tree p space_id (suc ref) kids).0,
      unplaced_nodes (suc ref) kids,
    )

    unplaced_nodes :
        (ref : ℕ) (cs : Collections)
        → unplaced (preorders (collections_to_tree p space_id ref cs).0) ≡ expected (infos_below cs)
    unplaced_nodes ref empty = refl
    unplaced_nodes ref (with_child c cs) =
        let (node, next) = collection_to_tree_node p space_id ref c in
        rw (unplaced-append, unplaced_node ref c, unplaced_nodes next cs, expected-append)

  -- `collectionToTreeNode` makes a node for each collection of the tree, in the same order, with the
  -- collection's fields, path, link and icon, and drops none (addresses aside).
  pub unplaced-collection_to_tree_node :
      (ref : ℕ) (c : Collection)
      → unplaced (preorder (collection_to_tree_node p space_id ref c).0) ≡ expected (infos c)
  unplaced-collection_to_tree_node ref c = unplaced_node ref c

  mutual
    unfolding collection_to_tree_node node_info infos preorder

    refs_node :
        (ref : ℕ) (c : Collection)
        → let (node, next) = collection_to_tree_node p space_id ref c in
          (refs_of (preorder node) ≡ count_from ref (length (infos c)))
          × (next ≡ ref + length (infos c))
    refs_node ref (collection c kids) =
        let (e, n) = refs_nodes (suc ref) kids in
        (
          refs-with_children (node_info p space_id ref c)
                (collections_to_tree p space_id (suc ref) kids).0
              ∙ ap (λ rs. ref ∷ rs) e,
          omega arith,
        )

    refs_nodes :
        (ref : ℕ) (cs : Collections)
        → let (nodes, next) = collections_to_tree p space_id ref cs in
          (refs_of (preorders nodes) ≡ count_from ref (length (infos_below cs)))
          × (next ≡ ref + length (infos_below cs))
    refs_nodes ref empty = (refl, omega arith)
    refs_nodes ref (with_child c cs) =
        let (node, ref') = collection_to_tree_node p space_id ref c in
        let (e, n) = refs_node ref c in
        let (e', n') = refs_nodes ref' cs in
        (
          refs_of-append (preorder node) (preorders (collections_to_tree p space_id ref' cs).0)
              ∙ rw (
                e,
                e',
                n,
                length-append (infos c) (infos_below cs),
                count_from-add ref (length (infos c)) (length (infos_below cs)),
              ),
          omega (arith, length-append (infos c) (infos_below cs)),
        )

  -- The nodes of the tree get consecutive addresses, so that no two of them are the same object.
  pub refs-collection_to_tree_node :
      (ref : ℕ) (c : Collection)
      → refs_of (preorder (collection_to_tree_node p space_id ref c).0)
        ≡ count_from ref (length (infos c))
  refs-collection_to_tree_node ref c = (refs_node ref c).0

-- What icon a collection gets, whatever its flags.
icon_of_cases :
    (c : CollectionInfo)
    → ((icon_of c ≡ eye_slash) ↔ (c.locked ≡ some true))
      × ((icon_of c ≡ lock) ↔ ((c.locked ≢ some true) × (c.restricted ≡ some true)))
      × ((icon_of c ≡ globe)
          ↔ ((c.locked ≢ some true) × (c.restricted ≢ some true) × (c.shared ≡ some true)))
unfolding icon_of
icon_of_cases c = ground arith
