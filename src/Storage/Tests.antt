-- ===== src/Storage/Tests.antt =====
-- Loading at concrete inputs: a version-2 file whose workspace stands in it twice.
use mult.Base.{ℕ, none, List, [], ◌∷◌, arith}
use mult.Base.Result.{Result, ok, err}
use mult.Model.Data.{waiting, shell, claude_code, ChatSession}
use mult.Model.Repair.Total.{HasRoom}
use mult.Model.Valid.{IsStored}
use mult.Storage.{StateV2, WorkspaceV2, TerminalV2, running, v2}
use mult.Storage.Migrate.{state_of_v3, migrate_v2_to_v3}
use mult.Storage.Load.{load_decoded}
use mult.Storage.Sound.{Loads, decoded_v2, load_decoded-Loads}

abbrev draw : List ℕ → Result ℕ ℕ × List ℕ
draw [] = (err 0, [])
draw (bytes ∷ rest) = (ok bytes, rest)

abbrev chat_four : ChatSession
chat_four = record { id = 4; name = []; status = waiting; agent = claude_code; messages = [] }

abbrev terminal_four : TerminalV2
terminal_four = record { id = 4; name = []; status = running; launch = shell }

abbrev home : WorkspaceV2
home = record {
  id = 1;
  name = [];
  cwd = none;
  environment = [];
  chats = chat_four ∷ [];
  terminals = terminal_four ∷ [];
}

abbrev file : StateV2
file = record {
  version = 2;
  namespace = 9;
  session_identities = record { chats = (4, 70) ∷ []; terminals = (4, 70) ∷ [] };
  agent_generations = [];
  next_workspace_id = 2;
  next_chat_id = 5;
  next_terminal_id = 5;
  workspaces = home ∷ home ∷ [];
}

roomy : HasRoom (state_of_v3 (migrate_v2_to_v3 file))
unfolding state_of_v3 migrate_v2_to_v3
roomy = record {
  workspaces_fit = omega arith;
  chats_fit = omega arith;
  terminals_fit = omega arith;
}

stored : IsStored (state_of_v3 (migrate_v2_to_v3 file))
unfolding state_of_v3 migrate_v2_to_v3
stored = record { chats_sorted = (tt, tt); terminals_sorted = (tt, tt); generations_sorted = tt }

load_decoded-Loads_example : Loads (load_decoded draw (v2 file) (5 ∷ 6 ∷ 7 ∷ []))
load_decoded-Loads_example =
    load_decoded-Loads draw (v2 file) (5 ∷ 6 ∷ 7 ∷ []) (decoded_v2 file roomy stored)
