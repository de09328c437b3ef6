-- ===== src/Cli/Handlers/Arguments.antt =====
-- The keys of the arguments of the handlers in analysis, bookmarks, cfg, data_types, decompiler,
-- disassembly and memory of ghidra_rpc/server/tools: those that a handler reads from `args`, and
-- those whose absence it refuses.
use ghidra_rpc_win.Common.{String, List, [], ◌∷◌, ◌++◌}
use ghidra_rpc_win.Common.Dict.{Dict}

pub record Keys : Type 0 where
  pub reads : List String
  pub requires : List String

abbrev pub keys : List String → List String → Keys
keys requires others = record { reads = requires ++ others; requires = requires }

abbrev load_keys : Keys
load_keys = keys ("path" ∷ []) ("analyze" ∷ "analysis_timeout" ∷ [])

abbrev list_binaries_keys : Keys
list_binaries_keys = keys ([]) ([])

abbrev list_project_programs_keys : Keys
list_project_programs_keys = keys ([]) ([])

abbrev functions_keys : Keys
functions_keys = keys ([]) (
    "binary" ∷ "include_externals" ∷ "offset" ∷ "limit" ∷ "address_min" ∷ "address_max"
    ∷ "with_body" ∷ [])

abbrev imports_keys : Keys
imports_keys = keys ([]) ("binary" ∷ [])

abbrev exports_keys : Keys
exports_keys = keys ([]) ("binary" ∷ [])

abbrev metadata_keys : Keys
metadata_keys = keys ([]) ("binary" ∷ [])

abbrev save_keys : Keys
save_keys = keys ([]) ("binary" ∷ [])

abbrev relocations_keys : Keys
relocations_keys = keys ([]) ("binary" ∷ "address" ∷ "limit" ∷ [])

abbrev list_calling_conventions_keys : Keys
list_calling_conventions_keys = keys ([]) ("binary" ∷ [])

abbrev pub analysis_handlers : Dict Keys
analysis_handlers =
    ("load", load_keys)
    ∷ ("list_binaries", list_binaries_keys)
    ∷ ("list_project_programs", list_project_programs_keys)
    ∷ ("functions", functions_keys)
    ∷ ("imports", imports_keys)
    ∷ ("exports", exports_keys)
    ∷ ("metadata", metadata_keys)
    ∷ ("save", save_keys)
    ∷ ("relocations", relocations_keys)
    ∷ ("list_calling_conventions", list_calling_conventions_keys)
    ∷ []

abbrev set_bookmark_keys : Keys
set_bookmark_keys = keys ("address" ∷ []) ("binary" ∷ "type" ∷ "category" ∷ "comment" ∷ [])

abbrev list_bookmarks_keys : Keys
list_bookmarks_keys = keys ([]) ("binary" ∷ "type" ∷ "address" ∷ "limit" ∷ [])

abbrev remove_bookmark_keys : Keys
remove_bookmark_keys = keys ("address" ∷ []) ("binary" ∷ "type" ∷ "category" ∷ [])

abbrev pub bookmarks_handlers : Dict Keys
bookmarks_handlers =
    ("set_bookmark", set_bookmark_keys)
    ∷ ("list_bookmarks", list_bookmarks_keys)
    ∷ ("remove_bookmark", remove_bookmark_keys)
    ∷ []

abbrev basic_blocks_keys : Keys
basic_blocks_keys = keys ("func" ∷ []) ("binary" ∷ "limit" ∷ [])

abbrev pcode_keys : Keys
pcode_keys = keys ("func" ∷ []) ("binary" ∷ "high" ∷ "timeout" ∷ "limit" ∷ [])

abbrev pub cfg_handlers : Dict Keys
cfg_handlers = ("basic_blocks", basic_blocks_keys) ∷ ("pcode", pcode_keys) ∷ []

abbrev create_struct_keys : Keys
create_struct_keys = keys ("name" ∷ []) ("binary" ∷ "fields" ∷ "if_not_exists" ∷ "or_replace" ∷ [])

abbrev create_union_keys : Keys
create_union_keys = keys ("name" ∷ []) ("binary" ∷ "fields" ∷ "if_not_exists" ∷ "or_replace" ∷ [])

abbrev create_enum_keys : Keys
create_enum_keys =
    keys ("name" ∷ []) ("binary" ∷ "values" ∷ "size" ∷ "if_not_exists" ∷ "or_replace" ∷ [])

abbrev modify_enum_keys : Keys
modify_enum_keys = keys ("name" ∷ []) ("binary" ∷ "add" ∷ "remove" ∷ [])

abbrev modify_struct_keys : Keys
modify_struct_keys =
    keys ("struct_name" ∷ [])
      ("binary" ∷ "field_offset" ∷ "field_name" ∷ "new_type" ∷ "new_name" ∷ "new_comment" ∷ [])

abbrev set_equate_keys : Keys
set_equate_keys =
    keys ("address" ∷ "equate_name" ∷ []) ("binary" ∷ "value" ∷ "operand_index" ∷ "enum_path" ∷ [])

abbrev list_equates_keys : Keys
list_equates_keys = keys ([]) ("binary" ∷ "address" ∷ "limit" ∷ [])

abbrev list_data_types_keys : Keys
list_data_types_keys = keys ([]) ("binary" ∷ "category" ∷ "query" ∷ "limit" ∷ [])

abbrev clear_data_range_keys : Keys
clear_data_range_keys = keys ("start" ∷ "end" ∷ []) ("binary" ∷ [])

abbrev apply_data_type_range_keys : Keys
apply_data_type_range_keys = keys ("start" ∷ "end" ∷ "data_type" ∷ []) ("binary" ∷ "clear" ∷ [])

abbrev list_labels_keys : Keys
list_labels_keys = keys ("address" ∷ []) ("binary" ∷ "end" ∷ "limit" ∷ [])

abbrev pub data_types_handlers : Dict Keys
data_types_handlers =
    ("create_struct", create_struct_keys)
    ∷ ("create_union", create_union_keys)
    ∷ ("create_enum", create_enum_keys)
    ∷ ("modify_enum", modify_enum_keys)
    ∷ ("modify_struct", modify_struct_keys)
    ∷ ("set_equate", set_equate_keys)
    ∷ ("list_equates", list_equates_keys)
    ∷ ("list_data_types", list_data_types_keys)
    ∷ ("clear_data_range", clear_data_range_keys)
    ∷ ("apply_data_type_range", apply_data_type_range_keys)
    ∷ ("list_labels", list_labels_keys)
    ∷ []

abbrev decompile_keys : Keys
decompile_keys = keys ("func" ∷ []) ("binary" ∷ "timeout" ∷ [])

abbrev pub decompiler_handlers : Dict Keys
decompiler_handlers = ("decompile", decompile_keys) ∷ []

abbrev disassemble_keys : Keys
disassemble_keys = keys ("address" ∷ []) ("binary" ∷ "count" ∷ [])

abbrev assemble_keys : Keys
assemble_keys = keys ("address" ∷ "instructions" ∷ []) ("binary" ∷ [])

abbrev pub disassembly_handlers : Dict Keys
disassembly_handlers = ("disassemble", disassemble_keys) ∷ ("assemble", assemble_keys) ∷ []

abbrev read_bytes_keys : Keys
read_bytes_keys = keys ("address" ∷ "length" ∷ []) ("binary" ∷ [])

abbrev write_bytes_keys : Keys
write_bytes_keys = keys ("address" ∷ "hex" ∷ []) ("binary" ∷ [])

abbrev memory_map_keys : Keys
memory_map_keys = keys ([]) ("binary" ∷ [])

abbrev pub memory_handlers : Dict Keys
memory_handlers =
    ("read_bytes", read_bytes_keys)
    ∷ ("write_bytes", write_bytes_keys)
    ∷ ("memory_map", memory_map_keys)
    ∷ []
