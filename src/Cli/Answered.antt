-- ===== src/Cli/Answered.antt =====
-- Every command is understood by its handler.
use ghidra_rpc_win.Common.{
  String, str_eq, ◌≡◌, refl, true, false, Option, none, some, List, ◌∷◌, ◌++◌, [], if◌then◌else◌,
}
use ghidra_rpc_win.Common.Dict
use ghidra_rpc_win.Cli.{RpcRequest, given_text, given_number, given_flag}
use ghidra_rpc_win.Cli.Commands.{
  Command, request, load_binary_command, list_functions_command, list_imports_command,
  list_exports_command, binary_metadata_command, decompile_command, find_bytes_command,
  search_strings_command, search_symbols_command, xrefs_to_command, xrefs_from_command,
  goto_command, read_bytes_command, relocations_command, memory_map_command, list_binaries_command,
  list_project_programs_command, save_program_command, disassemble_command, basic_blocks_command,
  pcode_command, get_processor_context_command, create_function_command, create_label_command,
  rename_function_command, rename_symbol_command, set_comment_command, set_signature_command,
  assemble_command, set_data_type_command, retype_variable_command, rename_variable_command,
  write_bytes_command, set_calling_convention_command, list_calling_conventions_command,
  set_thunk_command, set_flow_override_command, create_namespace_command, list_namespaces_command,
  delete_function_command, set_processor_context_command, list_equates_command,
  set_bookmark_command, list_bookmarks_command, remove_bookmark_command, list_data_types_command,
  clear_data_range_command, apply_data_type_range_command, list_labels_command,
  tag_function_command, untag_function_command, list_tags_command, functions_by_tag_command,
  version_track_command, match_function_command, decompile_all_command, function_diff_command,
}
use ghidra_rpc_win.Cli.Handlers.{Keys, handler_of}
use ghidra_rpc_win.Cli.Keys.{
  reads_all, has_all, reads_all-append, reads_all-given_text, reads_all-given_number,
  reads_all-given_flag,
}

-- The keys that a command sends and its handler does not read.
abbrev pub unread_of : String → List String
unread_of cmd = if str_eq cmd "version_track" then "ref_min_score" ∷ "ref_min_conf" ∷ [] else []

abbrev Answers : Option Keys → RpcRequest → Type 0
Answers none r = ⊥
Answers (some h) r =
    (has_all h.requires r.args ≡ true) × (reads_all (h.reads ++ unread_of r.cmd) r.args ≡ true)

-- The command is registered, the request has every key that the handler requires, and the handler
-- reads every key of the request but the unread ones.
abbrev pub IsAnswered : RpcRequest → Type 0
IsAnswered r = Answers (handler_of r.cmd) r

abbrev reads_of : Option Keys → List String
reads_of none = []
reads_of (some h) = h.reads

abbrev keys_for : String → List String
unfolding handler_of
keys_for cmd = reads_of (handler_of cmd) ++ unread_of cmd

-- The request of each of the 57 modelled commands (there are none for structs, unions, enums, setting
-- equates and batches) has the keys that its handler requires, whatever the options, and its handler
-- reads all keys that it has, the two reference thresholds of version_track being the only
-- exception.
pub request-IsAnswered : (c : Command) → IsAnswered (request c)
unfolding request handler_of Dict.lookup
request-IsAnswered (load_binary_command path no_analyze analysis_timeout) = (
  refl,
  reads_all-append (keys_for "load") (given_flag "analyze" false no_analyze)
      (given_number "analysis_timeout" analysis_timeout)
      (reads_all-given_flag (keys_for "load") "analyze" false no_analyze refl)
      (reads_all-given_number (keys_for "load") "analysis_timeout" analysis_timeout refl),
)
request-IsAnswered (list_functions_command binary limit offset address_min address_max with_body) =
    (
      refl,
      reads_all-append (keys_for "functions") (given_number "limit" limit)
          (given_text "address_min" address_min
            ++ (given_text "address_max" address_max ++ (given_flag "with_body" true with_body)))
          (reads_all-given_number (keys_for "functions") "limit" limit refl)
          (reads_all-append (keys_for "functions") (given_text "address_min" address_min)
            (given_text "address_max" address_max ++ (given_flag "with_body" true with_body))
            (reads_all-given_text (keys_for "functions") "address_min" address_min refl)
            (reads_all-append (keys_for "functions") (given_text "address_max" address_max)
              (given_flag "with_body" true with_body)
              (reads_all-given_text (keys_for "functions") "address_max" address_max refl)
              (reads_all-given_flag (keys_for "functions") "with_body" true with_body refl))),
    )
request-IsAnswered (list_imports_command binary) = (refl, refl)
request-IsAnswered (list_exports_command binary) = (refl, refl)
request-IsAnswered (binary_metadata_command binary) = (refl, refl)
request-IsAnswered (decompile_command binary func timeout) = (refl, refl)
request-IsAnswered (find_bytes_command binary pattern limit address) =
    (refl, reads_all-given_text (keys_for "find_bytes") "address" address refl)
request-IsAnswered (search_strings_command binary query limit) = (refl, refl)
request-IsAnswered (search_symbols_command binary query limit offset) = (refl, refl)
request-IsAnswered (xrefs_to_command binary target limit) = (refl, refl)
request-IsAnswered (xrefs_from_command binary target limit no_stack) = (refl, refl)
request-IsAnswered (goto_command binary target target_type) = (refl, refl)
request-IsAnswered (read_bytes_command binary address length) = (refl, refl)
request-IsAnswered (relocations_command binary address limit) =
    (refl, reads_all-given_text (keys_for "relocations") "address" address refl)
request-IsAnswered (memory_map_command binary) = (refl, refl)
request-IsAnswered list_binaries_command = (refl, refl)
request-IsAnswered list_project_programs_command = (refl, refl)
request-IsAnswered (save_program_command binary) =
    (refl, reads_all-given_text (keys_for "save") "binary" binary refl)
request-IsAnswered (disassemble_command binary address count) = (refl, refl)
request-IsAnswered (basic_blocks_command binary func limit) = (refl, refl)
request-IsAnswered (pcode_command binary func high timeout limit) = (refl, refl)
request-IsAnswered (get_processor_context_command binary address register) =
    (refl, reads_all-given_text (keys_for "get_processor_context") "register" register refl)
request-IsAnswered (create_function_command binary address name) =
    (refl, reads_all-given_text (keys_for "create_function") "name" name refl)
request-IsAnswered (create_label_command binary address name) = (refl, refl)
request-IsAnswered (rename_function_command binary target new_name namespace) =
    (refl, reads_all-given_text (keys_for "rename_function") "namespace" namespace refl)
request-IsAnswered (rename_symbol_command binary address new_name create) = (refl, refl)
request-IsAnswered (set_comment_command binary address comment comment_type) = (refl, refl)
request-IsAnswered (set_signature_command binary target signature) = (refl, refl)
request-IsAnswered (assemble_command binary address instructions) = (refl, refl)
request-IsAnswered (set_data_type_command binary address data_type) = (refl, refl)
request-IsAnswered (retype_variable_command binary func variable data_type timeout) = (refl, refl)
request-IsAnswered (rename_variable_command binary func variable new_name timeout) = (refl, refl)
request-IsAnswered (write_bytes_command binary address hex_data) = (refl, refl)
request-IsAnswered (set_calling_convention_command binary target convention) = (refl, refl)
request-IsAnswered (list_calling_conventions_command binary) = (refl, refl)
request-IsAnswered (set_thunk_command binary thunk target) = (refl, refl)
request-IsAnswered (set_flow_override_command binary address override) = (refl, refl)
request-IsAnswered (create_namespace_command binary name parent) =
    (refl, reads_all-given_text (keys_for "create_namespace") "parent" parent refl)
request-IsAnswered (list_namespaces_command binary limit) = (refl, refl)
request-IsAnswered (delete_function_command binary target) = (refl, refl)
request-IsAnswered (set_processor_context_command binary address register value end_addr) =
    (refl, reads_all-given_text (keys_for "set_processor_context") "end" end_addr refl)
request-IsAnswered (list_equates_command binary address limit) =
    (refl, reads_all-given_text (keys_for "list_equates") "address" address refl)
request-IsAnswered (set_bookmark_command binary address bm_type category comment) = (refl, refl)
request-IsAnswered (list_bookmarks_command binary bm_type address limit) = (
  refl,
  reads_all-append (keys_for "list_bookmarks") (given_text "type" bm_type)
      (given_text "address" address)
      (reads_all-given_text (keys_for "list_bookmarks") "type" bm_type refl)
      (reads_all-given_text (keys_for "list_bookmarks") "address" address refl),
)
request-IsAnswered (remove_bookmark_command binary address bm_type category) = (refl, refl)
request-IsAnswered (list_data_types_command binary category query limit) = (refl, refl)
request-IsAnswered (clear_data_range_command binary start end_addr) = (refl, refl)
request-IsAnswered (apply_data_type_range_command binary start end_addr data_type do_clear) =
    (refl, refl)
request-IsAnswered (list_labels_command binary address end_addr limit) =
    (refl, reads_all-given_text (keys_for "list_labels") "end" end_addr refl)
request-IsAnswered (tag_function_command binary target tag) = (refl, refl)
request-IsAnswered (untag_function_command binary target tag) = (refl, refl)
request-IsAnswered (list_tags_command binary) = (refl, refl)
request-IsAnswered (functions_by_tag_command binary tag limit) = (refl, refl)
request-IsAnswered
      (version_track_command source destination limit include_data min_similarity changed_only
        ref_min_score ref_min_conf) =
    (refl, refl)
request-IsAnswered (match_function_command source_binary func target_binary threshold) =
    (refl, refl)
request-IsAnswered (decompile_all_command binary timeout limit offset) =
    (refl, reads_all-given_number (keys_for "decompile_all") "limit" limit refl)
request-IsAnswered (function_diff_command binary1 func1 binary2 func2 mode timeout) = (refl, refl)
