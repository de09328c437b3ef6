-- ===== src/Tests/Cli.antt =====
-- Runs of the command line.
use ghidra_rpc_win.Cli.Commands.{request, list_bookmarks_command}
use ghidra_rpc_win.Cli.Answered.{IsAnswered, request-IsAnswered}

request-IsAnswered_example : IsAnswered (request (list_bookmarks_command "ls" "" "0x10" 5))
request-IsAnswered_example = request-IsAnswered (list_bookmarks_command "ls" "" "0x10" 5)
