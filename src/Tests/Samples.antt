-- ===== src/Tests/Samples.antt =====
-- A JSON format whose texts are the values themselves, and a Linux host.
use ghidra_rpc_win.Common.{refl, true, false, Option, none, some}
use ghidra_rpc_win.Json.{Json, str, Codec, IsLawful}
use ghidra_rpc_win.Session.{Host, linux, Session}

abbrev pub codec : Codec
codec = record {
  Text = Option Json;
  empty = none;
  blank = elim [ none ↦ true | some v ↦ false ];
  loads = λ t. t;
  dumps = some;
}

pub codec-IsLawful : IsLawful codec
codec-IsLawful = record { loads-dumps = λ v. refl; blank-dumps = λ v. refl; blank-empty = refl }

abbrev pub host : Host
host = record {
  platform = linux;
  to_path = λ s. s;
  resolve = λ s. s;
  parent = λ s. "/work";
  digest = λ s. s;
  temp_dir = "/tmp";
  home = "/home/u";
  state_dir = none;
  xdg_state_home = none;
  local_appdata = none;
}

abbrev pub session_a : Session
session_a = record {
  mode = str "headless";
  project_gpr = "a";
  socket_path = "/tmp/ghidra-rpc-a.sock";
  ghidra_install_dir = some "/opt/ghidra";
}

abbrev pub session_b : Session
session_b = record {
  mode = str "gui";
  project_gpr = "b";
  socket_path = "/tmp/ghidra-rpc-b.sock";
  ghidra_install_dir = none;
}
