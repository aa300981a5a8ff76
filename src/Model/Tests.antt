-- ===== src/Model/Tests.antt =====
-- The project state at concrete inputs: a workspace with a chat and a terminal.
use mult.Base.{
  ℕ, zero, suc, ◌-◌, ◌≡◌, ◌≢◌, ◌↔◌, ◌<◌, refl, ap, Bool, false, none, some, List, [], ◌∷◌, map, All,
  concat, arith, length, ◌==◌,
}
use mult.Base.OrdSet.{contains, insert, of_list}
use mult.Base.OrdMap.{get}
use mult.Base.Result.{Result, ok, err}
use mult.Model.Ids.{find_available_id, start_of, is_valid_durable_session_id}
use mult.Model.Ids.Free.{Searched, find_available_id-Searched}
use mult.Model.Random.{generate_identity, max_identity_attempts}
use mult.Model.Random.Drawn.{Draws, generate_identity-Draws}
use mult.Model.Hex.{identity_bytes, fmt, decode_identity, decode_identity_iff}
use mult.Model.Data.{
  Text, idle, pi, shell, assistant, ChatSession, TerminalSession, Workspace, ProjectState,
  chat_agent_key,
}
use mult.Base.Find.{find}
use mult.Model.State.{token_of, workspace}
use mult.Model.Validate.{sum_of, ensure_all, checks, validate_session_identities}
use mult.Model.Validate.Sound.{validate-ok-iff-IsValid}
use mult.Model.Valid.{IsStored, IsValid, IsWellFormed}
use mult.Model.Messages.{
  content_limit, is_continuation, push_capped_message_text, append_chat_delta, append_delta, chat,
}
use mult.Model.Messages.Characters.{IsCharacter, Appended, push_capped-Appended, push_capped-again}
use mult.Model.Messages.Bound.{AreBounded, append_chat_delta-AreBounded}
use mult.Model.Repair.{normalize_next_ids}
use mult.Model.Repair.Total.{HasRoom, AreNumbered, AreHinted, IsSameBut, normalize_next_ids_total}
use mult.Model.Repair.Numbers.{erase}
use mult.Model.Table.{table}
use mult.Model.Commands.{
  Command, workspace_command, chat_command, terminal_command, begin_command, remove_chat_command,
  delta_command, state_after, run,
}
use mult.Model.Commands.Runs.{
  TableSteps, changes_of, fresh_state, fresh_state-IsWellFormed, run-IsWellFormed, run-TableSteps,
  state_after-stable,
}

-- A source that holds its draws.
abbrev draw : List ℕ → Result ℕ ℕ × List ℕ
draw [] = (err 0, [])
draw (bytes ∷ rest) = (ok bytes, rest)

abbrev chat_four : ChatSession
chat_four = record { id = 4; name = []; status = idle; agent = pi; messages = [] }

abbrev terminal_four : TerminalSession
terminal_four = record { id = 4; name = []; restore_on_launch = false; launch = shell }

abbrev home : Workspace
home = record {
  id = 1;
  name = [];
  cwd = none;
  remote = none;
  environment = [];
  chats = chat_four ∷ [];
  terminals = terminal_four ∷ [];
}

abbrev project : ProjectState
project = record {
  version = 5;
  namespace = 9;
  session_identities = record { chats = (4, 70) ∷ []; terminals = (4, 71) ∷ [] };
  agent_generations = (4, 3) ∷ [];
  next_workspace_id = 2;
  next_chat_id = 5;
  next_terminal_id = 5;
  workspaces = home ∷ [];
}

-- The same project with its workspace twice.
abbrev doubled : ProjectState
doubled = record project { workspaces = home ∷ home ∷ [] }

stored : IsStored project
stored = record {
  chats_sorted = (tt, tt);
  terminals_sorted = (tt, tt);
  generations_sorted = (tt, tt);
}

passes : validate_session_identities project ≡ ok tt
unfolding validate_session_identities ensure_all checks sum_of contains of_list insert
    is_valid_durable_session_id
passes = refl

refuses : validate_session_identities doubled ≢ ok tt
unfolding validate_session_identities ensure_all checks sum_of contains of_list insert
    is_valid_durable_session_id
refuses e = absurd (ground arith)

validate-ok-iff-IsValid_example : (validate_session_identities project ≡ ok tt) ↔ IsValid project
validate-ok-iff-IsValid_example = validate-ok-iff-IsValid project stored

good : IsWellFormed project
good = (stored, (validate-ok-iff-IsValid project stored).0 passes)

abbrev commands : List Command
commands =
    workspace_command [] none
    ∷ chat_command 1 [] idle pi
    ∷ terminal_command 1 [] shell
    ∷ begin_command 1
    ∷ remove_chat_command 1 1
    ∷ []

abbrev draws : List ℕ
draws = 5 ∷ 0 ∷ 5 ∷ 6 ∷ 8 ∷ []

run-IsWellFormed_example : IsWellFormed (run draw commands (fresh_state 9) draws)
run-IsWellFormed_example =
    run-IsWellFormed draw commands (fresh_state 9) draws (fresh_state-IsWellFormed 9)

run-TableSteps_example :
    TableSteps
      (changes_of draw commands (fresh_state 9) draws)
      (table (fresh_state 9))
      (table (run draw commands (fresh_state 9) draws))
run-TableSteps_example =
    run-TableSteps draw commands (fresh_state 9) draws (fresh_state-IsWellFormed 9)

abbrev delta : Command
delta = delta_command 1 4 assistant (104 ∷ [])

chat_token : token_of project (chat_agent_key 4) ≡ some 70
unfolding token_of get
chat_token = refl

chat_token_after : token_of (state_after draw delta project draws) (chat_agent_key 4) ≡ some 70
unfolding token_of get state_after append_chat_delta append_delta chat workspace find
chat_token_after = refl

state_after-stable_example : ◌≡◌ {A = ℕ} 70 70
state_after-stable_example =
    state_after-stable draw delta project draws (chat_agent_key 4) 70 70 good chat_token
      chat_token_after

roomy : HasRoom doubled
roomy = record {
  workspaces_fit = omega arith;
  chats_fit = omega arith;
  terminals_fit = omega arith;
}

normalize_next_ids_total_example :
    (now : ProjectState) × (changed : Bool) × (normalize_next_ids {F = ℕ} doubled
      ≡ ok (now, changed))
    × AreNumbered now
    × AreHinted now
    × IsSameBut now doubled
    × (map erase now.workspaces ≡ map erase doubled.workspaces)
normalize_next_ids_total_example = normalize_next_ids_total ℕ doubled roomy

abbrev used : List ℕ
used = 1 ∷ 3 ∷ []

find_available_id-Searched_example : Searched used (start_of 3 3) 3 (find_available_id used 3 3)
find_available_id-Searched_example =
    find_available_id-Searched used 3 3 ((omega arith, tt), (tt, tt)) (omega arith)

abbrev is_five : ℕ → Bool
is_five n = n == 5

generate_identity-Draws_example :
    Draws draw is_five max_identity_attempts
      (0 ∷ 5 ∷ 7 ∷ [])
      (generate_identity draw is_five (0 ∷ 5 ∷ 7 ∷ []))
generate_identity-Draws_example = generate_identity-Draws draw is_five (0 ∷ 5 ∷ 7 ∷ [])

abbrev letters : List Text
letters = (104 ∷ []) ∷ (195 ∷ 169 ∷ []) ∷ []

letters-AreCharacters : All IsCharacter letters
unfolding is_continuation
letters-AreCharacters = ((refl, tt, omega arith), ((refl, (refl, tt), omega arith), tt))

push_capped-Appended_example :
    Appended (104 ∷ []) letters (push_capped_message_text (104 ∷ []) (concat letters))
push_capped-Appended_example = push_capped-Appended (104 ∷ []) letters letters-AreCharacters

full_but : ℕ → Text
full_but zero = []
full_but (suc n) = 97 ∷ full_but n

length-full_but : (n : ℕ) → length (full_but n) ≡ n
unfolding full_but
length-full_but zero = refl
length-full_but (suc n) = ap suc (length-full_but n)

abbrev nearly_full : Text
nearly_full = full_but (content_limit - 2)

push_capped-again_example :
    push_capped_message_text (push_capped_message_text nearly_full (concat letters)).0 (98 ∷ [])
    ≡ ((push_capped_message_text nearly_full (concat letters)).0, false)
push_capped-again_example =
    push_capped-again nearly_full (98 ∷ []) letters letters-AreCharacters
      (omega (arith, length-full_but (content_limit - 2)))

append_chat_delta-AreBounded_example :
    AreBounded (append_chat_delta project 1 4 assistant (104 ∷ [])).0
append_chat_delta-AreBounded_example =
    append_chat_delta-AreBounded project 1 4 assistant (104 ∷ []) ((tt, tt), tt)

abbrev counted_bytes : List ℕ
counted_bytes = 0 ∷ 1 ∷ 2 ∷ 3 ∷ 4 ∷ 5 ∷ 6 ∷ 7 ∷ 8 ∷ 9 ∷ 10 ∷ 11 ∷ 12 ∷ 13 ∷ 14 ∷ 255 ∷ []

decode_identity_iff_example : (decode_identity (fmt counted_bytes) ≡ some counted_bytes) ↔ (
    (length counted_bytes ≡ identity_bytes)
    × All (λ b. b < 256) counted_bytes
    × (fmt counted_bytes ≡ fmt counted_bytes))
decode_identity_iff_example = decode_identity_iff (fmt counted_bytes) counted_bytes
