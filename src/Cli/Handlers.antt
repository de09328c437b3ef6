-- ===== src/Cli/Handlers.antt =====
-- The handlers that ghidra_rpc/server/tools registers, each with the keys of its arguments.
pub mod Arguments
pub mod Changes
use ghidra_rpc_win.Common.{String, Option, ◌++◌}
use ghidra_rpc_win.Common.Dict
use ghidra_rpc_win.Common.Dict.{Dict}
pub use ghidra_rpc_win.Cli.Handlers.Arguments.{Keys}
use ghidra_rpc_win.Cli.Handlers.Arguments.{
  analysis_handlers, bookmarks_handlers, cfg_handlers, data_types_handlers, decompiler_handlers,
  disassembly_handlers, memory_handlers,
}
use ghidra_rpc_win.Cli.Handlers.Changes.{
  modifications_handlers, navigation_handlers, processor_context_handlers, search_handlers,
  tags_handlers, version_tracking_handlers, xrefs_handlers,
}

abbrev pub all_handlers : Dict Keys
all_handlers =
    analysis_handlers
    ++ (bookmarks_handlers
        ++ (cfg_handlers
            ++ (data_types_handlers
                ++ (decompiler_handlers
                    ++ (disassembly_handlers
                        ++ (memory_handlers
                            ++ (modifications_handlers
                                ++ (navigation_handlers
                                    ++ (processor_context_handlers
                                        ++ (search_handlers
                                            ++ (tags_handlers
                                                ++ (version_tracking_handlers
                                                    ++ (xrefs_handlers)))))))))))))

-- `_HANDLERS[cmd]`
unfoldable pub handler_of : String → Option Keys
unfolding Dict.lookup
handler_of cmd = Dict.lookup cmd all_handlers
