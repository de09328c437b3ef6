-- ===== src/Cli/Handlers/Changes.antt =====
-- The keys of the arguments of the handlers in modifications, navigation, processor_context, search,
-- tags, version_tracking and xrefs of ghidra_rpc/server/tools.
use ghidra_rpc_win.Common.{[], ◌∷◌}
use ghidra_rpc_win.Common.Dict.{Dict}
use ghidra_rpc_win.Cli.Handlers.Arguments.{Keys, keys}

abbrev create_label_keys : Keys
create_label_keys = keys ("address" ∷ "name" ∷ []) ("binary" ∷ [])

abbrev create_function_keys : Keys
create_function_keys = keys ("address" ∷ []) ("binary" ∷ "name" ∷ [])

abbrev rename_function_keys : Keys
rename_function_keys = keys ("target" ∷ "new_name" ∷ []) ("binary" ∷ "namespace" ∷ [])

abbrev rename_symbol_keys : Keys
rename_symbol_keys = keys ("address" ∷ "new_name" ∷ []) ("binary" ∷ "create" ∷ [])

abbrev set_comment_keys : Keys
set_comment_keys = keys ("address" ∷ []) ("binary" ∷ "comment" ∷ "comment_type" ∷ [])

abbrev set_function_signature_keys : Keys
set_function_signature_keys = keys ("target" ∷ "signature" ∷ []) ("binary" ∷ [])

abbrev set_data_type_keys : Keys
set_data_type_keys = keys ("address" ∷ "data_type" ∷ []) ("binary" ∷ [])

abbrev retype_variable_keys : Keys
retype_variable_keys = keys ("func" ∷ "variable" ∷ "data_type" ∷ []) ("binary" ∷ "timeout" ∷ [])

abbrev rename_variable_keys : Keys
rename_variable_keys = keys ("func" ∷ "variable" ∷ "new_name" ∷ []) ("binary" ∷ "timeout" ∷ [])

abbrev set_calling_convention_keys : Keys
set_calling_convention_keys = keys ("target" ∷ "convention" ∷ []) ("binary" ∷ [])

abbrev set_thunk_keys : Keys
set_thunk_keys = keys ("thunk" ∷ "target" ∷ []) ("binary" ∷ [])

abbrev set_flow_override_keys : Keys
set_flow_override_keys = keys ("address" ∷ "override" ∷ []) ("binary" ∷ [])

abbrev create_namespace_keys : Keys
create_namespace_keys = keys ("name" ∷ []) ("binary" ∷ "parent" ∷ [])

abbrev list_namespaces_keys : Keys
list_namespaces_keys = keys ([]) ("binary" ∷ "limit" ∷ [])

abbrev batch_rename_keys : Keys
batch_rename_keys = keys ([]) ("binary" ∷ "operations" ∷ "mode" ∷ [])

abbrev batch_set_comment_keys : Keys
batch_set_comment_keys = keys ([]) ("binary" ∷ "operations" ∷ [])

abbrev delete_function_keys : Keys
delete_function_keys = keys ("target" ∷ []) ("binary" ∷ "address" ∷ [])

abbrev pub modifications_handlers : Dict Keys
modifications_handlers =
    ("create_label", create_label_keys)
    ∷ ("create_function", create_function_keys)
    ∷ ("rename_function", rename_function_keys)
    ∷ ("rename_symbol", rename_symbol_keys)
    ∷ ("set_comment", set_comment_keys)
    ∷ ("set_function_signature", set_function_signature_keys)
    ∷ ("set_data_type", set_data_type_keys)
    ∷ ("retype_variable", retype_variable_keys)
    ∷ ("rename_variable", rename_variable_keys)
    ∷ ("set_calling_convention", set_calling_convention_keys)
    ∷ ("set_thunk", set_thunk_keys)
    ∷ ("set_flow_override", set_flow_override_keys)
    ∷ ("create_namespace", create_namespace_keys)
    ∷ ("list_namespaces", list_namespaces_keys)
    ∷ ("batch_rename", batch_rename_keys)
    ∷ ("batch_set_comment", batch_set_comment_keys)
    ∷ ("delete_function", delete_function_keys)
    ∷ []

abbrev goto_keys : Keys
goto_keys = keys ("target" ∷ []) ("binary" ∷ "target_type" ∷ [])

abbrev pub navigation_handlers : Dict Keys
navigation_handlers = ("goto", goto_keys) ∷ []

abbrev get_processor_context_keys : Keys
get_processor_context_keys = keys ("address" ∷ []) ("binary" ∷ "register" ∷ [])

abbrev set_processor_context_keys : Keys
set_processor_context_keys = keys ("address" ∷ "register" ∷ "value" ∷ []) ("binary" ∷ "end" ∷ [])

abbrev pub processor_context_handlers : Dict Keys
processor_context_handlers =
    ("get_processor_context", get_processor_context_keys)
    ∷ ("set_processor_context", set_processor_context_keys)
    ∷ []

abbrev find_bytes_keys : Keys
find_bytes_keys = keys ("pattern" ∷ []) ("binary" ∷ "limit" ∷ "address" ∷ [])

abbrev strings_keys : Keys
strings_keys = keys ("query" ∷ []) ("binary" ∷ "limit" ∷ [])

abbrev symbols_keys : Keys
symbols_keys = keys ("query" ∷ []) ("binary" ∷ "limit" ∷ "offset" ∷ [])

abbrev pub search_handlers : Dict Keys
search_handlers =
    ("find_bytes", find_bytes_keys) ∷ ("strings", strings_keys) ∷ ("symbols", symbols_keys) ∷ []

abbrev tag_function_keys : Keys
tag_function_keys = keys ("target" ∷ "tag" ∷ []) ("binary" ∷ [])

abbrev untag_function_keys : Keys
untag_function_keys = keys ("target" ∷ "tag" ∷ []) ("binary" ∷ [])

abbrev list_tags_keys : Keys
list_tags_keys = keys ([]) ("binary" ∷ [])

abbrev functions_by_tag_keys : Keys
functions_by_tag_keys = keys ("tag" ∷ []) ("binary" ∷ "limit" ∷ [])

abbrev pub tags_handlers : Dict Keys
tags_handlers =
    ("tag_function", tag_function_keys)
    ∷ ("untag_function", untag_function_keys)
    ∷ ("list_tags", list_tags_keys)
    ∷ ("functions_by_tag", functions_by_tag_keys)
    ∷ []

abbrev version_track_keys : Keys
version_track_keys =
    keys ("source" ∷ "destination" ∷ [])
      ("binary1" ∷ "binary2" ∷ "limit" ∷ "include_data" ∷ "min_similarity" ∷ "changed_only" ∷ [])

abbrev match_function_keys : Keys
match_function_keys = keys ("source_binary" ∷ "func" ∷ "target_binary" ∷ []) ("threshold" ∷ [])

abbrev decompile_all_keys : Keys
decompile_all_keys = keys ("binary" ∷ []) ("timeout" ∷ "limit" ∷ "offset" ∷ [])

abbrev function_diff_keys : Keys
function_diff_keys = keys ("binary1" ∷ "func1" ∷ "binary2" ∷ "func2" ∷ []) ("timeout" ∷ "mode" ∷ [])

abbrev pub version_tracking_handlers : Dict Keys
version_tracking_handlers =
    ("version_track", version_track_keys)
    ∷ ("match_function", match_function_keys)
    ∷ ("decompile_all", decompile_all_keys)
    ∷ ("function_diff", function_diff_keys)
    ∷ []

abbrev xrefs_to_keys : Keys
xrefs_to_keys = keys ("target" ∷ []) ("binary" ∷ "limit" ∷ [])

abbrev xrefs_from_keys : Keys
xrefs_from_keys = keys ("target" ∷ []) ("binary" ∷ "limit" ∷ "no_stack" ∷ [])

abbrev pub xrefs_handlers : Dict Keys
xrefs_handlers = ("xrefs_to", xrefs_to_keys) ∷ ("xrefs_from", xrefs_from_keys) ∷ []
