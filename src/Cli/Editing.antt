-- ===== src/Cli/Editing.antt =====
-- The commands of ghidra_rpc/cli.py that change a program.
use ghidra_rpc_win.Common.{ℕ, String, Bool, List, [], ◌∷◌, ◌++◌, map}
use ghidra_rpc_win.Json.{bool, num, str, arr, of_list}
use ghidra_rpc_win.Cli.{RpcRequest, given_text}

abbrev pub create_function_request : String → String → String → RpcRequest
create_function_request binary address name = record {
  cmd = "create_function";
  args = (("binary", str binary) ∷ ("address", str address) ∷ []) ++ (given_text "name" name);
}

abbrev pub create_label_request : String → String → String → RpcRequest
create_label_request binary address name = record {
  cmd = "create_label";
  args = ("binary", str binary) ∷ ("address", str address) ∷ ("name", str name) ∷ [];
}

abbrev pub rename_function_request : String → String → String → String → RpcRequest
rename_function_request binary target new_name namespace = record {
  cmd = "rename_function";
  args =
      (("binary", str binary) ∷ ("target", str target) ∷ ("new_name", str new_name) ∷ [])
      ++ (given_text "namespace" namespace);
}

abbrev pub rename_symbol_request : String → String → String → Bool → RpcRequest
rename_symbol_request binary address new_name create = record {
  cmd = "rename_symbol";
  args =
      ("binary", str binary)
      ∷ ("address", str address)
      ∷ ("new_name", str new_name)
      ∷ ("create", bool create)
      ∷ [];
}

abbrev pub set_comment_request : String → String → String → String → RpcRequest
set_comment_request binary address comment comment_type = record {
  cmd = "set_comment";
  args =
      ("binary", str binary)
      ∷ ("address", str address)
      ∷ ("comment", str comment)
      ∷ ("comment_type", str comment_type)
      ∷ [];
}

abbrev pub set_signature_request : String → String → String → RpcRequest
set_signature_request binary target signature = record {
  cmd = "set_function_signature";
  args = ("binary", str binary) ∷ ("target", str target) ∷ ("signature", str signature) ∷ [];
}

abbrev pub assemble_request : String → String → List String → RpcRequest
assemble_request binary address instructions = record {
  cmd = "assemble";
  args =
      ("binary", str binary)
      ∷ ("address", str address)
      ∷ ("instructions", arr (of_list (map str instructions)))
      ∷ [];
}

abbrev pub set_data_type_request : String → String → String → RpcRequest
set_data_type_request binary address data_type = record {
  cmd = "set_data_type";
  args = ("binary", str binary) ∷ ("address", str address) ∷ ("data_type", str data_type) ∷ [];
}

abbrev pub retype_variable_request : String → String → String → String → ℕ → RpcRequest
retype_variable_request binary func variable data_type timeout = record {
  cmd = "retype_variable";
  args =
      ("binary", str binary)
      ∷ ("func", str func)
      ∷ ("variable", str variable)
      ∷ ("data_type", str data_type)
      ∷ ("timeout", num timeout)
      ∷ [];
}

abbrev pub rename_variable_request : String → String → String → String → ℕ → RpcRequest
rename_variable_request binary func variable new_name timeout = record {
  cmd = "rename_variable";
  args =
      ("binary", str binary)
      ∷ ("func", str func)
      ∷ ("variable", str variable)
      ∷ ("new_name", str new_name)
      ∷ ("timeout", num timeout)
      ∷ [];
}

abbrev pub write_bytes_request : String → String → String → RpcRequest
write_bytes_request binary address hex_data = record {
  cmd = "write_bytes";
  args = ("binary", str binary) ∷ ("address", str address) ∷ ("hex", str hex_data) ∷ [];
}

abbrev pub set_calling_convention_request : String → String → String → RpcRequest
set_calling_convention_request binary target convention = record {
  cmd = "set_calling_convention";
  args = ("binary", str binary) ∷ ("target", str target) ∷ ("convention", str convention) ∷ [];
}

abbrev pub list_calling_conventions_request : String → RpcRequest
list_calling_conventions_request binary = record {
  cmd = "list_calling_conventions";
  args = ("binary", str binary) ∷ [];
}

abbrev pub set_thunk_request : String → String → String → RpcRequest
set_thunk_request binary thunk target = record {
  cmd = "set_thunk";
  args = ("binary", str binary) ∷ ("thunk", str thunk) ∷ ("target", str target) ∷ [];
}

abbrev pub set_flow_override_request : String → String → String → RpcRequest
set_flow_override_request binary address override = record {
  cmd = "set_flow_override";
  args = ("binary", str binary) ∷ ("address", str address) ∷ ("override", str override) ∷ [];
}

abbrev pub create_namespace_request : String → String → String → RpcRequest
create_namespace_request binary name parent = record {
  cmd = "create_namespace";
  args = (("binary", str binary) ∷ ("name", str name) ∷ []) ++ (given_text "parent" parent);
}

abbrev pub list_namespaces_request : String → ℕ → RpcRequest
list_namespaces_request binary limit = record {
  cmd = "list_namespaces";
  args = ("binary", str binary) ∷ ("limit", num limit) ∷ [];
}

abbrev pub delete_function_request : String → String → RpcRequest
delete_function_request binary target = record {
  cmd = "delete_function";
  args = ("binary", str binary) ∷ ("target", str target) ∷ [];
}

abbrev pub set_processor_context_request : String → String → String → String → String → RpcRequest
set_processor_context_request binary address register value end_addr = record {
  cmd = "set_processor_context";
  args =
      (("binary", str binary)
        ∷ ("address", str address)
        ∷ ("register", str register)
        ∷ ("value", str value)
        ∷ [])
      ++ (given_text "end" end_addr);
}
