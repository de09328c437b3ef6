-- ===== src/Cli.antt =====
-- ghidra_rpc/cli.py: the request that each command sends to the daemon.
pub mod Programs
pub mod Editing
pub mod Marking
pub mod Commands
pub mod Handlers
pub mod Keys
pub mod Answered
pub mod Printing
use ghidra_rpc_win.Common.{
  ℕ, String, str_eq, Bool, true, false, Option, none, some, List, [], ◌∷◌, if◌then◌else◌,
}
use ghidra_rpc_win.Common.Dict.{Dict}
use ghidra_rpc_win.Json.{Json, bool, num, str}

-- What `_rpc_command` is called with, less the project.
pub record RpcRequest : Type 0 where
  pub cmd : String
  pub args : Dict Json

-- `if text: args[key] = text`
abbrev pub given_text : String → String → Dict Json
given_text key text = if str_eq text "" then [] else (key, str text) ∷ []

-- `if number is not None: args[key] = number`
abbrev pub given_number : String → Option ℕ → Dict Json
given_number key none = []
given_number key (some n) = (key, num n) ∷ []

-- `if flag: args[key] = value`
abbrev pub given_flag : String → Bool → Bool → Dict Json
given_flag key value flag = if flag then (key, bool value) ∷ [] else []
