-- ===== src/Tree.antt =====
-- ui/v1/src/lib/components/tree.ts: the tree of collections in the sidebar.
--
-- Nodes are JavaScript objects, which `removeNode` and `isDescendantOrSelf` compare by reference:
-- each node carries its address, `ref`. A node whose `children` is undefined is a `leaf`; one whose
-- `children` is a (possibly empty) array is a `branch`. The icons are an enumeration.
mod Defs
pub mod Build
pub mod Preorder
pub mod Remove
pub mod Find
pub mod Subtree
mod Tests
unfoldable pub use Defs.*
