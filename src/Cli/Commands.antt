-- ===== src/Cli/Commands.antt =====
-- A command line, as what click parsed: options that were not given have their defaults.
-- A path is made absolute before.
use ghidra_rpc_win.Common.{ℕ, String, Bool, Option, List}
use ghidra_rpc_win.Json.{Json}
use ghidra_rpc_win.Cli.{RpcRequest}
use ghidra_rpc_win.Cli.Programs.{
  load_binary_request, list_functions_request, list_imports_request, list_exports_request,
  binary_metadata_request, decompile_request, find_bytes_request, search_strings_request,
  search_symbols_request, xrefs_to_request, xrefs_from_request, goto_request, read_bytes_request,
  relocations_request, memory_map_request, list_binaries_request, list_project_programs_request,
  save_program_request, disassemble_request, basic_blocks_request, pcode_request,
  get_processor_context_request,
}
use ghidra_rpc_win.Cli.Editing.{
  create_function_request, create_label_request, rename_function_request, rename_symbol_request,
  set_comment_request, set_signature_request, assemble_request, set_data_type_request,
  retype_variable_request, rename_variable_request, write_bytes_request,
  set_calling_convention_request, list_calling_conventions_request, set_thunk_request,
  set_flow_override_request, create_namespace_request, list_namespaces_request,
  delete_function_request, set_processor_context_request,
}
use ghidra_rpc_win.Cli.Marking.{
  list_equates_request, set_bookmark_request, list_bookmarks_request, remove_bookmark_request,
  list_data_types_request, clear_data_range_request, apply_data_type_range_request,
  list_labels_request, tag_function_request, untag_function_request, list_tags_request,
  functions_by_tag_request, version_track_request, match_function_request, decompile_all_request,
  function_diff_request,
}

pub data Command : Type 0 where
  load_binary_command : String → Bool → Option ℕ → Command
  list_functions_command : String → Option ℕ → ℕ → String → String → Bool → Command
  list_imports_command : String → Command
  list_exports_command : String → Command
  binary_metadata_command : String → Command
  decompile_command : String → String → ℕ → Command
  find_bytes_command : String → String → ℕ → String → Command
  search_strings_command : String → String → ℕ → Command
  search_symbols_command : String → String → ℕ → ℕ → Command
  xrefs_to_command : String → String → ℕ → Command
  xrefs_from_command : String → String → ℕ → Bool → Command
  goto_command : String → String → String → Command
  read_bytes_command : String → String → ℕ → Command
  relocations_command : String → String → ℕ → Command
  memory_map_command : String → Command
  list_binaries_command : Command
  list_project_programs_command : Command
  save_program_command : String → Command
  disassemble_command : String → String → ℕ → Command
  basic_blocks_command : String → String → ℕ → Command
  pcode_command : String → String → Bool → ℕ → ℕ → Command
  get_processor_context_command : String → String → String → Command
  create_function_command : String → String → String → Command
  create_label_command : String → String → String → Command
  rename_function_command : String → String → String → String → Command
  rename_symbol_command : String → String → String → Bool → Command
  set_comment_command : String → String → String → String → Command
  set_signature_command : String → String → String → Command
  assemble_command : String → String → List String → Command
  set_data_type_command : String → String → String → Command
  retype_variable_command : String → String → String → String → ℕ → Command
  rename_variable_command : String → String → String → String → ℕ → Command
  write_bytes_command : String → String → String → Command
  set_calling_convention_command : String → String → String → Command
  list_calling_conventions_command : String → Command
  set_thunk_command : String → String → String → Command
  set_flow_override_command : String → String → String → Command
  create_namespace_command : String → String → String → Command
  list_namespaces_command : String → ℕ → Command
  delete_function_command : String → String → Command
  set_processor_context_command : String → String → String → String → String → Command
  list_equates_command : String → String → ℕ → Command
  set_bookmark_command : String → String → String → String → String → Command
  list_bookmarks_command : String → String → String → ℕ → Command
  remove_bookmark_command : String → String → String → String → Command
  list_data_types_command : String → String → String → ℕ → Command
  clear_data_range_command : String → String → String → Command
  apply_data_type_range_command : String → String → String → String → Bool → Command
  list_labels_command : String → String → String → ℕ → Command
  tag_function_command : String → String → String → Command
  untag_function_command : String → String → String → Command
  list_tags_command : String → Command
  functions_by_tag_command : String → String → ℕ → Command
  version_track_command : String → String → ℕ → Bool → Json → Bool → Json → Json → Command
  match_function_command : String → String → String → Json → Command
  decompile_all_command : String → ℕ → Option ℕ → ℕ → Command
  function_diff_command : String → String → String → String → String → ℕ → Command

-- What is sent for a command.
unfoldable pub request : Command → RpcRequest
request (load_binary_command path no_analyze analysis_timeout) =
    load_binary_request path no_analyze analysis_timeout
request (list_functions_command binary limit offset address_min address_max with_body) =
    list_functions_request binary limit offset address_min address_max with_body
request (list_imports_command binary) = list_imports_request binary
request (list_exports_command binary) = list_exports_request binary
request (binary_metadata_command binary) = binary_metadata_request binary
request (decompile_command binary func timeout) = decompile_request binary func timeout
request (find_bytes_command binary pattern limit address) =
    find_bytes_request binary pattern limit address
request (search_strings_command binary query limit) = search_strings_request binary query limit
request (search_symbols_command binary query limit offset) =
    search_symbols_request binary query limit offset
request (xrefs_to_command binary target limit) = xrefs_to_request binary target limit
request (xrefs_from_command binary target limit no_stack) =
    xrefs_from_request binary target limit no_stack
request (goto_command binary target target_type) = goto_request binary target target_type
request (read_bytes_command binary address length) = read_bytes_request binary address length
request (relocations_command binary address limit) = relocations_request binary address limit
request (memory_map_command binary) = memory_map_request binary
request list_binaries_command = list_binaries_request
request list_project_programs_command = list_project_programs_request
request (save_program_command binary) = save_program_request binary
request (disassemble_command binary address count) = disassemble_request binary address count
request (basic_blocks_command binary func limit) = basic_blocks_request binary func limit
request (pcode_command binary func high timeout limit) =
    pcode_request binary func high timeout limit
request (get_processor_context_command binary address register) =
    get_processor_context_request binary address register
request (create_function_command binary address name) = create_function_request binary address name
request (create_label_command binary address name) = create_label_request binary address name
request (rename_function_command binary target new_name namespace) =
    rename_function_request binary target new_name namespace
request (rename_symbol_command binary address new_name create) =
    rename_symbol_request binary address new_name create
request (set_comment_command binary address comment comment_type) =
    set_comment_request binary address comment comment_type
request (set_signature_command binary target signature) =
    set_signature_request binary target signature
request (assemble_command binary address instructions) =
    assemble_request binary address instructions
request (set_data_type_command binary address data_type) =
    set_data_type_request binary address data_type
request (retype_variable_command binary func variable data_type timeout) =
    retype_variable_request binary func variable data_type timeout
request (rename_variable_command binary func variable new_name timeout) =
    rename_variable_request binary func variable new_name timeout
request (write_bytes_command binary address hex_data) = write_bytes_request binary address hex_data
request (set_calling_convention_command binary target convention) =
    set_calling_convention_request binary target convention
request (list_calling_conventions_command binary) = list_calling_conventions_request binary
request (set_thunk_command binary thunk target) = set_thunk_request binary thunk target
request (set_flow_override_command binary address override) =
    set_flow_override_request binary address override
request (create_namespace_command binary name parent) = create_namespace_request binary name parent
request (list_namespaces_command binary limit) = list_namespaces_request binary limit
request (delete_function_command binary target) = delete_function_request binary target
request (set_processor_context_command binary address register value end_addr) =
    set_processor_context_request binary address register value end_addr
request (list_equates_command binary address limit) = list_equates_request binary address limit
request (set_bookmark_command binary address bm_type category comment) =
    set_bookmark_request binary address bm_type category comment
request (list_bookmarks_command binary bm_type address limit) =
    list_bookmarks_request binary bm_type address limit
request (remove_bookmark_command binary address bm_type category) =
    remove_bookmark_request binary address bm_type category
request (list_data_types_command binary category query limit) =
    list_data_types_request binary category query limit
request (clear_data_range_command binary start end_addr) =
    clear_data_range_request binary start end_addr
request (apply_data_type_range_command binary start end_addr data_type do_clear) =
    apply_data_type_range_request binary start end_addr data_type do_clear
request (list_labels_command binary address end_addr limit) =
    list_labels_request binary address end_addr limit
request (tag_function_command binary target tag) = tag_function_request binary target tag
request (untag_function_command binary target tag) = untag_function_request binary target tag
request (list_tags_command binary) = list_tags_request binary
request (functions_by_tag_command binary tag limit) = functions_by_tag_request binary tag limit
request
      (version_track_command source destination limit include_data min_similarity changed_only
        ref_min_score ref_min_conf) =
    version_track_request source destination limit include_data min_similarity changed_only
      ref_min_score ref_min_conf
request (match_function_command source_binary func target_binary threshold) =
    match_function_request source_binary func target_binary threshold
request (decompile_all_command binary timeout limit offset) =
    decompile_all_request binary timeout limit offset
request (function_diff_command binary1 func1 binary2 func2 mode timeout) =
    function_diff_request binary1 func1 binary2 func2 mode timeout
