-- ===== src/Tests/Threads.antt =====
-- Runs of the accept loop and its threads: two connections, the second one says stop.
use ghidra_rpc_win.Common.{
  ◌≡◌, refl, ◌⊎◌, ℕ, ◌+◌, ◌<◌, str_eq, true, false, none, some, [], ◌∷◌, if◌then◌else◌,
}
use ghidra_rpc_win.Common.Dict
use ghidra_rpc_win.Common.Exec.{ok}
use ghidra_rpc_win.Json.{null, num, str, obj, of_dict, to_dict}
use ghidra_rpc_win.Rpc.{Parsed, value}
use ghidra_rpc_win.Server.{Server, handled}
use ghidra_rpc_win.Server.Threads.{
  System, testing, reading, closed, handling, replying, Request, start, set_stage, stage_of, Step,
  go_on, accept, receive, acquire, release, reply, stop, Reach, here, next,
}
use ghidra_rpc_win.Server.Threads.Exclusion.{Exclusive, Reach-Exclusive}
use ghidra_rpc_win.Server.Threads.Serial.{Sequential, Reach-Sequential}
use ghidra_rpc_win.Server.Threads.Shutdown.{steps_left, Step-steps_left, Reach-steps_left}

abbrev server : Server ℕ
server = record {
  wire = record { dumps = λ v. []; parse = λ bs. value null; show = λ v. "" };
  handlers = λ cmd. if str_eq cmd "count" then some (λ args n. (ok (num n), n + 1)) else none;
  available = "['count', 'ping', 'stop']";
  fresh_id = "u";
  project_gpr = "/work/a.gpr";
  mode = str "headless";
  pid = 1;
}

abbrev count_line : Parsed
count_line = value (obj (of_dict (("id", str "1") ∷ ("cmd", str "count") ∷ [])))

abbrev stop_line : Parsed
stop_line = value (obj (of_dict (("id", str "2") ∷ ("cmd", str "stop") ∷ [])))

abbrev counting : Request ℕ
counting = record {
  id = str "1";
  cmd = "count";
  args = obj (of_dict []);
  handler = λ args n. (ok (num n), n + 1);
}

-- The loop has taken two connections; the first one's handler runs, the second one waits to be
-- told that the server stops.
abbrev two_threads : System ℕ
two_threads = record {
  loop = testing;
  shutdown = false;
  lock = some 0;
  threads = handling counting 5 ∷ reading ∷ [];
  context = 5;
  served = [];
}

two_threads-Reach : Reach server (start 5) two_threads
unfolding start set_stage stage_of of_dict to_dict Dict.lookup
two_threads-Reach =
    next
      (next
        (next (next (next (next here (go_on _ refl refl)) (accept _ refl)) (go_on _ refl refl))
          (accept _ refl))
        (receive _ 0 (some count_line) refl))
      (acquire _ 0 counting refl refl)

-- The thread that works makes 5 into 6, and answers 5.
abbrev counted : System ℕ
counted = record {
  loop = testing;
  shutdown = false;
  lock = none;
  threads = replying (handled (str "1") (ok (num 5))) ∷ reading ∷ [];
  context = 6;
  served = (counting, handled (str "1") (ok (num 5))) ∷ [];
}

counted-Reach : Reach server (start 5) counted
unfolding set_stage
counted-Reach = next two_threads-Reach (release _ 0 counting 5 refl)

-- Then the second thread says stop, and the first one has still to reply.
abbrev stopped : System ℕ
stopped = record counted {
  shutdown = true;
  threads = replying (handled (str "1") (ok (num 5))) ∷ closed ∷ [];
}

stopped-Reach : Reach server (start 5) stopped
unfolding set_stage stage_of of_dict to_dict Dict.lookup
stopped-Reach = next (next counted-Reach (receive _ 1 (some stop_line) refl)) (stop _ 1 _ refl)

Reach-Exclusive_example : Exclusive server two_threads
Reach-Exclusive_example = Reach-Exclusive server 5 two_threads-Reach

Reach-Sequential_example : Sequential server 5 ((counting, handled (str "1") (ok (num 5))) ∷ []) 6
Reach-Sequential_example = Reach-Sequential server 5 counted-Reach

Step-steps_left_example :
    (true ≡ true) × (steps_left (set_stage 0 closed stopped) < steps_left stopped)
unfolding set_stage
Step-steps_left_example = Step-steps_left server (reply stopped 0 _ refl) refl

Reach-steps_left_example :
    (steps_left two_threads ≡ 0) ⊎ ((u : System ℕ) × Step server two_threads u)
Reach-steps_left_example = Reach-steps_left server 5 two_threads-Reach
