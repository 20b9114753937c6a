-- ===== src/Gateway/Examples.antt =====
-- Runs of the gateway with one session.
use aetherium.Base.{
  ℕ, ◌+◌, ◌≡◌, refl, true, false, none, some, [], ok, Text, text, itoa, lookup, insert, text_eq,
}
use aetherium.Storage.{Workspace, SessionMessage}
use aetherium.Storage.Db.{has_row}
use aetherium.Storage.Sessions as SessionTable
use aetherium.Storage.Workspaces as WorkspaceTable
use aetherium.Worker.Examples.{database, site}
use aetherium.Worker.{ExecResult}
use aetherium.Gateway.Sessions.{
  chosen_dir, SessionBackend, IncomingMessage, Session, Talk, enqueue, prompt_cmd,
}
use aetherium.Gateway.Sessions.Closing.{ClosesTwice, end_reading-crashed, end_reading-close_session}
use aetherium.Gateway.Sessions.Draining.{Drained, Reach-Drained}
use aetherium.Gateway.Sessions.Delivery.{Reach-Delivers}
use aetherium.Gateway.Sessions.Order.{Delivers}
use aetherium.Gateway.Sessions.Manager.{
  Gateway, close_session, end_reading, get_session, handle_session, write_message, new_session,
  welcome,
}
use aetherium.Gateway.Sessions.Stored.{prompt_row}
use aetherium.Gateway.Sessions.Runs.{PumpReach-runs, Reach-IsSound}
use aetherium.Gateway.Sessions.Objects.{IsSound}
use aetherium.Gateway.Sessions.Steps.{
  close, Reach-trans, pump, put, PumpReach, PumpStep, Reach, connect, new_gateway, write,
}

-- Ids are numbers, and each command prints "done".
abbrev backend : SessionBackend ℕ
backend = record {
  execute_command =
      λ vm cmd n. (ok (record { exit_code = 0; stdout = text "done"; stderr = [] }), n);
  new_id = λ n. (itoa n, n + 1);
  now = λ n. n;
}

abbrev start : Gateway ℕ
start = new_gateway database 1

abbrev opened : Gateway ℕ
opened = (handle_session backend true (text "w") (text "10.0.0.9") start).1

abbrev greeted : Session
greeted = enqueue (welcome 2 (text "1") (text "site")) (new_session (text "1") (text "w"))

opened-object : lookup (text "1") opened.objects ≡ some greeted
unfolding handle_session new_gateway lookup insert WorkspaceTable.get SessionTable.create has_row
    itoa text_eq enqueue welcome new_session
opened-object = refl

opening : PumpStep backend start opened
unfolding new_gateway lookup
opening = connect true (text "w") (text "10.0.0.9") refl

opened-Reach : Reach backend start opened
unfolding new_gateway
opened-Reach = Reach.next Reach.here refl (pump opening)

opened-crashed : opened.crashed ≡ false
unfolding handle_session new_gateway WorkspaceTable.get SessionTable.create has_row lookup text_eq
    insert
opened-crashed = refl

-- The greeting is written.
abbrev written : Gateway ℕ
written = put greeted.id (write_message true greeted) opened

later : Reach backend opened written
unfolding enqueue new_session
later =
    Reach.next Reach.here opened-crashed (pump (write true greeted opened-object refl (λ _. refl)))

Reach-IsSound_example : IsSound (text "1") (lookup (text "1") opened.sessions) greeted
Reach-IsSound_example =
    Reach-IsSound backend database 1 opened-Reach (text "1") greeted opened-object

PumpReach-runs_example : opened.crashed ≡ false
unfolding new_gateway
PumpReach-runs_example =
    PumpReach-runs backend database 1 (PumpReach.next PumpReach.here refl opening)

opened-session : get_session (text "1") opened ≡ some greeted
unfolding get_session handle_session new_gateway lookup insert WorkspaceTable.get
    SessionTable.create has_row itoa text_eq enqueue welcome new_session
opened-session = refl

end_reading-close_session_example : ClosesTwice backend (close_session (text "1") opened) (text "1")
unfolding enqueue new_session
end_reading-close_session_example =
    end_reading-close_session backend database 1 opened-Reach opened-crashed (text "1") greeted
      opened-session refl

Reach-Delivers_example :
    (o' : Session) × (lookup (text "1") written.objects ≡ some o') × Delivers greeted o'
Reach-Delivers_example =
    Reach-Delivers backend database 1 opened-Reach later (text "1") greeted opened-object

-- A prompt of that session.
abbrev prompt : IncomingMessage
prompt = record {
  message_type = text "prompt";
  prompt = text "don't";
  system_prompt = [];
  working_directory = [];
  environment = [];
}

abbrev talk : Talk ℕ
talk = record { db = opened.db; host = 7; session = greeted }

abbrev question : SessionMessage
question = prompt_row (text "8") (text "1") (text "don't")

abbrev cmd : Text
cmd = text "cd /workspace && claude-code --dangerously-skip-permissions 'don'\\''t'"

abbrev stranger : Workspace
stranger = record site { ai_assistant = text "other" }

abbrev answer : ExecResult
answer = record { exit_code = 0; stdout = text "done"; stderr = [] }

stranger-none : prompt_cmd (text "other") (chosen_dir stranger prompt) (text "don't") ≡ none
unfolding prompt_cmd text_eq
stranger-none = refl

Reach-Drained_example : Drained backend opened (text "1") greeted
unfolding enqueue new_session
Reach-Drained_example =
    Reach-Drained backend database 1 opened-Reach opened-crashed (text "1") greeted opened-object
      refl refl

-- The state after CloseSession has gone through its cleanup.
abbrev closing : ClosesTwice backend (close_session (text "1") opened) (text "1")
unfolding enqueue new_session
closing =
    end_reading-close_session backend database 1 opened-Reach opened-crashed (text "1") greeted
      opened-session refl

closing-Reach : Reach backend start closing.after
closing-Reach =
    Reach-trans (Reach.next opened-Reach opened-crashed (close (text "1"))) closing.reached

end_reading-crashed_example :
    PumpStep backend closing.after (end_reading closing.session closing.after)
    × ((end_reading closing.session closing.after).crashed ≡ true)
end_reading-crashed_example =
    end_reading-crashed backend database 1 closing-Reach Reach.here (text "1") closing.session
      closing.session closing.there closing.closed closing.there closing.still_read
