-- ===== src/Evaluator/Native/Texts.antt =====
-- rex-engine/src/evaluator/native_functions.rs: the texts of the internal errors, one record for a task.
use rex.Evaluator.Native.Gather.{Texts}

abbrev pub sequence_map_texts : Texts
sequence_map_texts = record {
  unknown_child = "native sequence map received unknown child";
  out_of_bounds = "native sequence map result slot out of bounds";
  duplicate = "native sequence map received duplicate child result";
  too_many = "native sequence map received too many results";
  missing = "native sequence map completed with missing result";
}

abbrev pub sequence_filter_texts : Texts
sequence_filter_texts = record {
  unknown_child = "native sequence filter received unknown child";
  out_of_bounds = "native sequence filter result slot out of bounds";
  duplicate = "native sequence filter received duplicate child result";
  too_many = "native sequence filter received too many results";
  missing = "native sequence filter completed with missing result";
}

abbrev pub sequence_predicate_texts : Texts
sequence_predicate_texts = record {
  unknown_child = "native sequence predicate received unknown child";
  out_of_bounds = "native sequence predicate result slot out of bounds";
  duplicate = "native sequence predicate received duplicate child result";
  too_many = "native sequence predicate received too many results";
  missing = "native list partition completed with missing result";
}

abbrev pub sequence_filter_map_texts : Texts
sequence_filter_map_texts = record {
  unknown_child = "native sequence filter_map received unknown child";
  out_of_bounds = "native sequence filter_map result slot out of bounds";
  duplicate = "native sequence filter_map received duplicate child result";
  too_many = "native sequence filter_map received too many results";
  missing = "native sequence filter_map completed with missing result";
}

abbrev pub sequence_flat_map_texts : Texts
sequence_flat_map_texts = record {
  unknown_child = "native sequence flat_map received unknown child";
  out_of_bounds = "native sequence flat_map result slot out of bounds";
  duplicate = "native sequence flat_map received duplicate child result";
  too_many = "native sequence flat_map received too many results";
  missing = "native sequence flat_map completed with missing result";
}

abbrev pub dict_entry_map_texts : Texts
dict_entry_map_texts = record {
  unknown_child = "native dict entry map received unknown child";
  out_of_bounds = "native dict entry map result slot out of bounds";
  duplicate = "native dict entry map received duplicate child result";
  too_many = "native dict entry map received too many results";
  missing = "native dict entry map completed with missing result";
}

abbrev pub dict_filter_texts : Texts
dict_filter_texts = record {
  unknown_child = "native dict filter unknown child";
  out_of_bounds = "native dict filter result slot out of bounds";
  duplicate = "native dict filter received duplicate child result";
  too_many = "native dict filter received too many results";
  missing = "native dict filter completed with missing result";
}

abbrev pub dict_filter_map_texts : Texts
dict_filter_map_texts = record {
  unknown_child = "native dict filter_map unknown child";
  out_of_bounds = "native dict filter_map result slot out of bounds";
  duplicate = "native dict filter_map received duplicate child result";
  too_many = "native dict filter_map received too many results";
  missing = "native dict filter_map completed with missing result";
}

abbrev pub dict_map_texts : Texts
dict_map_texts = record {
  unknown_child = "native dict map received unknown child";
  out_of_bounds = "native dict map result slot out of bounds";
  duplicate = "native dict map received duplicate child result";
  too_many = "native dict map received too many results";
  missing = "native dict map completed with missing result";
}
