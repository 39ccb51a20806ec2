-- ===== src/Evaluator/Native/Items.antt =====
-- rex-engine/src/memory/lists.rs, `ListItems`: the elements of a list, as a part of a shared cell or as
-- pointers of their own. A part with `start` above `end` is not made: the source would panic on it.
pub mod Holds
use rex.Prelude.{ℕ, ◌+◌, ◌-◌, List, Bool, String, ltb, leb, if◌then◌else◌, length, get_elem?, ◌==◌}
use rex.Evaluator.FrameStore.{usize_max}
use rex.Evaluator.Frame.Effect.{Effect, pure, ◌>>=◌}
use rex.Evaluator.Frame.MapValues.{map_vec}
use rex.Evaluator.Native.Scope.{Action, RootScope, fail, ok_or, internal}

pub data ListItems (P : Type 0) : Type 0 where
  slice : P → ℕ → ℕ → ListItems P
  binary_slice : P → ℕ → ℕ → List ℕ → ListItems P
  pointers : List P → ListItems P

module _ {S Err P Q : Type 0} (f : P → Effect S Err Q) where
  unfoldable pub map_items : ListItems P → Effect S Err (ListItems Q)
  map_items (slice elements start end) = do elements' ← f elements; pure (slice elements' start end)
  map_items (binary_slice elements start end bytes) = do
    elements' ← f elements
    pure (binary_slice elements' start end bytes)
  map_items (pointers values) = do values' ← map_vec f values; pure (pointers values')

module _ {P : Type 0} where
  unfoldable pub items_len : ListItems P → ℕ
  items_len (slice elements start end) = end - start
  items_len (binary_slice elements start end bytes) = end - start
  items_len (pointers values) = length values

  unfoldable pub items_is_empty : ListItems P → Bool
  unfolding items_len
  items_is_empty items = items_len items == 0

module _ {H P : Type 0} (scope : RootScope H P) where
  unfoldable pub get : ℕ → ListItems P → Action H P
  unfolding usize_max fail ok_or
  get index (slice elements start end) =
      if ltb usize_max (start + index)
      then fail (internal "list slice backing index overflow")
      else if leb end (start + index)
      then fail (internal "list item index out of bounds")
      else do
        values ← scope.cell_as_data elements
        ok_or "list slice backing index out of bounds" (get_elem? values (start + index))
  get index (binary_slice elements start end bytes) =
      if leb (end - start) index
      then fail (internal "binary list slice index out of bounds")
      else do
        byte ← ok_or "binary list slice index out of bounds" (get_elem? bytes index)
        scope.alloc_root_u8 byte
  get index (pointers values) = ok_or "list item index out of bounds" (get_elem? values index)
