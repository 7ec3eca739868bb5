-- ===== src/Tree.antt =====
-- The tree that `parent_id` spans over the table of drive items: a walk up it, its length, and what
-- a change of one row does to it.
mod Climb
mod Reparent
pub mod Shape
pub use Climb.{
  Walk, root, up, IsForest, depth, above, depth-above, depth-eq, depth-le, parent_or_none,
}
unfoldable pub use Climb.{parent_of}
pub use Reparent.{Avoids, stop, past, IsClosed, IsForest-reparent, IsForest-prune, Avoids-missing}
