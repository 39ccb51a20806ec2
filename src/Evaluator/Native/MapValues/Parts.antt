-- ===== src/Evaluator/Native/MapValues/Parts.antt =====
-- rex-engine/src/evaluator/native_functions.rs: the mapping of what the tasks hold.
use rex.Prelude.{List, Option, String}
use rex.Evaluator.Frame.Effect.{Effect, pure, ◌>>=◌}
use rex.Evaluator.Frame.MapValues.{map_option, map_vec, map_option_vec}

module _ {S Err P Q : Type 0} (f : P → Effect S Err Q) where
  map_entry : String × P → Effect S Err (String × Q)
  map_entry entry = do value ← f entry.1; pure (entry.0, value)

  unfoldable pub map_nested_option_values :
      List (Option (Option P)) → Effect S Err (List (Option (Option Q)))
  map_nested_option_values values = map_option_vec (map_option f) values

  unfoldable pub map_option_value_vecs :
      List (Option (List P)) → Effect S Err (List (Option (List Q)))
  map_option_value_vecs values = map_option_vec (map_vec f) values

  unfoldable pub map_entries_into : List (String × P) → Effect S Err (List (String × Q))
  unfolding map_entry
  map_entries_into entries = map_vec map_entry entries
