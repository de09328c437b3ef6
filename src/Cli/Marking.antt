-- ===== src/Cli/Marking.antt =====
-- The commands of ghidra_rpc/cli.py for data types, bookmarks, tags and comparisons.
use ghidra_rpc_win.Common.{ℕ, String, Bool, Option, [], ◌∷◌, ◌++◌}
use ghidra_rpc_win.Json.{Json, bool, num, str}
use ghidra_rpc_win.Cli.{RpcRequest, given_text, given_number}

abbrev pub list_equates_request : String → String → ℕ → RpcRequest
list_equates_request binary address limit = record {
  cmd = "list_equates";
  args = (("binary", str binary) ∷ ("limit", num limit) ∷ []) ++ (given_text "address" address);
}

abbrev pub set_bookmark_request : String → String → String → String → String → RpcRequest
set_bookmark_request binary address bm_type category comment = record {
  cmd = "set_bookmark";
  args =
      ("binary", str binary)
      ∷ ("address", str address)
      ∷ ("type", str bm_type)
      ∷ ("category", str category)
      ∷ ("comment", str comment)
      ∷ [];
}

abbrev pub list_bookmarks_request : String → String → String → ℕ → RpcRequest
list_bookmarks_request binary bm_type address limit = record {
  cmd = "list_bookmarks";
  args =
      (("binary", str binary) ∷ ("limit", num limit) ∷ [])
      ++ (given_text "type" bm_type ++ (given_text "address" address));
}

abbrev pub remove_bookmark_request : String → String → String → String → RpcRequest
remove_bookmark_request binary address bm_type category = record {
  cmd = "remove_bookmark";
  args =
      ("binary", str binary)
      ∷ ("address", str address)
      ∷ ("type", str bm_type)
      ∷ ("category", str category)
      ∷ [];
}

abbrev pub list_data_types_request : String → String → String → ℕ → RpcRequest
list_data_types_request binary category query limit = record {
  cmd = "list_data_types";
  args =
      ("binary", str binary)
      ∷ ("category", str category)
      ∷ ("query", str query)
      ∷ ("limit", num limit)
      ∷ [];
}

abbrev pub clear_data_range_request : String → String → String → RpcRequest
clear_data_range_request binary start end_addr = record {
  cmd = "clear_data_range";
  args = ("binary", str binary) ∷ ("start", str start) ∷ ("end", str end_addr) ∷ [];
}

abbrev pub apply_data_type_range_request : String → String → String → String → Bool → RpcRequest
apply_data_type_range_request binary start end_addr data_type do_clear = record {
  cmd = "apply_data_type_range";
  args =
      ("binary", str binary)
      ∷ ("start", str start)
      ∷ ("end", str end_addr)
      ∷ ("data_type", str data_type)
      ∷ ("clear", bool do_clear)
      ∷ [];
}

abbrev pub list_labels_request : String → String → String → ℕ → RpcRequest
list_labels_request binary address end_addr limit = record {
  cmd = "list_labels";
  args =
      (("binary", str binary) ∷ ("address", str address) ∷ ("limit", num limit) ∷ [])
      ++ (given_text "end" end_addr);
}

abbrev pub tag_function_request : String → String → String → RpcRequest
tag_function_request binary target tag = record {
  cmd = "tag_function";
  args = ("binary", str binary) ∷ ("target", str target) ∷ ("tag", str tag) ∷ [];
}

abbrev pub untag_function_request : String → String → String → RpcRequest
untag_function_request binary target tag = record {
  cmd = "untag_function";
  args = ("binary", str binary) ∷ ("target", str target) ∷ ("tag", str tag) ∷ [];
}

abbrev pub list_tags_request : String → RpcRequest
list_tags_request binary = record { cmd = "list_tags"; args = ("binary", str binary) ∷ [] }

abbrev pub functions_by_tag_request : String → String → ℕ → RpcRequest
functions_by_tag_request binary tag limit = record {
  cmd = "functions_by_tag";
  args = ("binary", str binary) ∷ ("tag", str tag) ∷ ("limit", num limit) ∷ [];
}

abbrev pub version_track_request :
    String → String → ℕ → Bool → Json → Bool → Json → Json → RpcRequest
version_track_request source destination limit include_data min_similarity changed_only
      ref_min_score ref_min_conf =
    record {
      cmd = "version_track";
      args =
          ("source", str source)
          ∷ ("destination", str destination)
          ∷ ("limit", num limit)
          ∷ ("include_data", bool include_data)
          ∷ ("min_similarity", min_similarity)
          ∷ ("changed_only", bool changed_only)
          ∷ ("ref_min_score", ref_min_score)
          ∷ ("ref_min_conf", ref_min_conf)
          ∷ [];
    }

abbrev pub match_function_request : String → String → String → Json → RpcRequest
match_function_request source_binary func target_binary threshold = record {
  cmd = "match_function";
  args =
      ("source_binary", str source_binary)
      ∷ ("func", str func)
      ∷ ("target_binary", str target_binary)
      ∷ ("threshold", threshold)
      ∷ [];
}

abbrev pub decompile_all_request : String → ℕ → Option ℕ → ℕ → RpcRequest
decompile_all_request binary timeout limit offset = record {
  cmd = "decompile_all";
  args =
      (("binary", str binary) ∷ ("timeout", num timeout) ∷ ("offset", num offset) ∷ [])
      ++ (given_number "limit" limit);
}

abbrev pub function_diff_request : String → String → String → String → String → ℕ → RpcRequest
function_diff_request binary1 func1 binary2 func2 mode timeout = record {
  cmd = "function_diff";
  args =
      ("binary1", str binary1)
      ∷ ("func1", str func1)
      ∷ ("binary2", str binary2)
      ∷ ("func2", str func2)
      ∷ ("mode", str mode)
      ∷ ("timeout", num timeout)
      ∷ [];
}
