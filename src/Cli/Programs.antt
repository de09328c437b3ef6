-- ===== src/Cli/Programs.antt =====
-- The commands of ghidra_rpc/cli.py that load, list, search and read.
use ghidra_rpc_win.Common.{ℕ, String, Bool, true, false, Option, [], ◌∷◌, ◌++◌}
use ghidra_rpc_win.Json.{bool, num, str}
use ghidra_rpc_win.Cli.{RpcRequest, given_text, given_number, given_flag}

abbrev pub load_binary_request : String → Bool → Option ℕ → RpcRequest
load_binary_request path no_analyze analysis_timeout = record {
  cmd = "load";
  args =
      (("path", str path) ∷ [])
      ++ (given_flag "analyze" false no_analyze
          ++ (given_number "analysis_timeout" analysis_timeout));
}

abbrev pub list_functions_request : String → Option ℕ → ℕ → String → String → Bool → RpcRequest
list_functions_request binary limit offset address_min address_max with_body = record {
  cmd = "functions";
  args =
      (("binary", str binary) ∷ ("offset", num offset) ∷ [])
      ++ (given_number "limit" limit
          ++ (given_text "address_min" address_min
              ++ (given_text "address_max" address_max
                  ++ (given_flag "with_body" true with_body))));
}

abbrev pub list_imports_request : String → RpcRequest
list_imports_request binary = record { cmd = "imports"; args = ("binary", str binary) ∷ [] }

abbrev pub list_exports_request : String → RpcRequest
list_exports_request binary = record { cmd = "exports"; args = ("binary", str binary) ∷ [] }

abbrev pub binary_metadata_request : String → RpcRequest
binary_metadata_request binary = record { cmd = "metadata"; args = ("binary", str binary) ∷ [] }

abbrev pub decompile_request : String → String → ℕ → RpcRequest
decompile_request binary func timeout = record {
  cmd = "decompile";
  args = ("binary", str binary) ∷ ("func", str func) ∷ ("timeout", num timeout) ∷ [];
}

abbrev pub find_bytes_request : String → String → ℕ → String → RpcRequest
find_bytes_request binary pattern limit address = record {
  cmd = "find_bytes";
  args =
      (("binary", str binary) ∷ ("pattern", str pattern) ∷ ("limit", num limit) ∷ [])
      ++ (given_text "address" address);
}

abbrev pub search_strings_request : String → String → ℕ → RpcRequest
search_strings_request binary query limit = record {
  cmd = "strings";
  args = ("binary", str binary) ∷ ("query", str query) ∷ ("limit", num limit) ∷ [];
}

abbrev pub search_symbols_request : String → String → ℕ → ℕ → RpcRequest
search_symbols_request binary query limit offset = record {
  cmd = "symbols";
  args =
      ("binary", str binary)
      ∷ ("query", str query)
      ∷ ("limit", num limit)
      ∷ ("offset", num offset)
      ∷ [];
}

abbrev pub xrefs_to_request : String → String → ℕ → RpcRequest
xrefs_to_request binary target limit = record {
  cmd = "xrefs_to";
  args = ("binary", str binary) ∷ ("target", str target) ∷ ("limit", num limit) ∷ [];
}

abbrev pub xrefs_from_request : String → String → ℕ → Bool → RpcRequest
xrefs_from_request binary target limit no_stack = record {
  cmd = "xrefs_from";
  args =
      ("binary", str binary)
      ∷ ("target", str target)
      ∷ ("limit", num limit)
      ∷ ("no_stack", bool no_stack)
      ∷ [];
}

abbrev pub goto_request : String → String → String → RpcRequest
goto_request binary target target_type = record {
  cmd = "goto";
  args = ("binary", str binary) ∷ ("target", str target) ∷ ("target_type", str target_type) ∷ [];
}

abbrev pub read_bytes_request : String → String → ℕ → RpcRequest
read_bytes_request binary address length = record {
  cmd = "read_bytes";
  args = ("binary", str binary) ∷ ("address", str address) ∷ ("length", num length) ∷ [];
}

abbrev pub relocations_request : String → String → ℕ → RpcRequest
relocations_request binary address limit = record {
  cmd = "relocations";
  args = (("binary", str binary) ∷ ("limit", num limit) ∷ []) ++ (given_text "address" address);
}

abbrev pub memory_map_request : String → RpcRequest
memory_map_request binary = record { cmd = "memory_map"; args = ("binary", str binary) ∷ [] }

abbrev pub list_binaries_request : RpcRequest
list_binaries_request = record { cmd = "list_binaries"; args = [] }

abbrev pub list_project_programs_request : RpcRequest
list_project_programs_request = record { cmd = "list_project_programs"; args = [] }

abbrev pub save_program_request : String → RpcRequest
save_program_request binary = record { cmd = "save"; args = given_text "binary" binary }

abbrev pub disassemble_request : String → String → ℕ → RpcRequest
disassemble_request binary address count = record {
  cmd = "disassemble";
  args = ("binary", str binary) ∷ ("address", str address) ∷ ("count", num count) ∷ [];
}

abbrev pub basic_blocks_request : String → String → ℕ → RpcRequest
basic_blocks_request binary func limit = record {
  cmd = "basic_blocks";
  args = ("binary", str binary) ∷ ("func", str func) ∷ ("limit", num limit) ∷ [];
}

abbrev pub pcode_request : String → String → Bool → ℕ → ℕ → RpcRequest
pcode_request binary func high timeout limit = record {
  cmd = "pcode";
  args =
      ("binary", str binary)
      ∷ ("func", str func)
      ∷ ("high", bool high)
      ∷ ("timeout", num timeout)
      ∷ ("limit", num limit)
      ∷ [];
}

abbrev pub get_processor_context_request : String → String → String → RpcRequest
get_processor_context_request binary address register = record {
  cmd = "get_processor_context";
  args =
      (("binary", str binary) ∷ ("address", str address) ∷ []) ++ (given_text "register" register);
}
