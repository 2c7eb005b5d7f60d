-- ===== src/Tests/SafetyExamples.antt =====
-- The theorems on the whole server at concrete runs.
use rc_project.Server.{inet_ntop, Server, data_cmp, group_cmp, max_group_name, send_udp_message}
use rc_project.Base.{
  ◌≤◌, length, arith, ◌≡◌, refl, List, [], ◌∷◌, pos, Returns, inl, inr, true, ℕ, some, All, ok,
}
use rc_project.Tests.{home, from_home}
use rc_project.Text.Decimal.{digits}
use mathlib.Core.List.Perm
use rc_project.Text.{codes, strcmp, c_string, parse_cmd, strtok_r, remove_end_line}
use rc_project.Text.Scan.{scan_word, scan_line, scan_int}
use rc_project.Memory.{scratch}
use rc_project.Avl.{elements}
use rc_project.Avl.Sorting.{insert_all}
use rc_project.Avl.Order.{insert_sorted, find}
use rc_project.Server.Admin.{run_command}
use rc_project.Server.Groups.{grp, groups_of}
use rc_project.Server.Commands.{scan_name}
use rc_project.Server.Listen.{Received, serve, udp_server_worker}
use rc_project.Server.Commands.Multicast.{cmd_getmulticast}
use rc_project.Server.Safety.{ServerValid}
use rc_project.Server.Safety.Administration.{TypedFits, run_command-ServerValid}
use rc_project.Server.Safety.Datagrams.{ReceivedFits, udp_server_worker-ServerValid}
use rc_project.Server.Safety.Runs.{Event, received, typed, EventFits}
use rc_project.Server.Groups.Get.{group_answer, cmd_getmulticast_lem}
use rc_project.Server.Safety.Liveness.{serve-answers}
use rc_project.Tests.Fixtures.{server, session, sessions-IsValid, users-IsValid, groups-IsValid}

abbrev pub s : Server
s = server 1 true 1

pub s-ServerValid : ServerValid s
unfolding elements insert_all insert_sorted data_cmp strcmp inet_ntop digits
s-ServerValid = record {
  accounts = users-IsValid;
  sessions = sessions-IsValid;
  groups = groups-IsValid 1 true 1;
  bound = (inr ((omega arith, refl), refl), tt);
  peers = ((refl, refl), tt);
  flags = (
    (inr refl, inr refl, inr refl),
    ((inr refl, inr refl, inr refl), ((inr refl, inl refl, inl refl), tt)),
  );
  persisted = refl;
  addresses = Perm.refl _;
}

abbrev hello : Received
hello = from_home (codes "MSG bob hello there")

hello-ReceivedFits : ReceivedFits hello
unfolding parse_cmd strtok_r remove_end_line strcmp scan_word scan_line c_string
hello-ReceivedFits = record { short = omega arith; null_client = refl; words = tt }

udp_server_worker-ServerValid_example : Returns ServerValid (udp_server_worker 5 hello s)
udp_server_worker-ServerValid_example =
    udp_server_worker-ServerValid 5 hello s s-ServerValid hello-ReceivedFits

abbrev add_dave : List ℕ
add_dave = codes "ADD dave 10.0.0.9 abc 1 0 1\n"

add_dave-TypedFits : TypedFits add_dave
unfolding parse_cmd strtok_r remove_end_line strcmp scan_word scan_int
add_dave-TypedFits = (inr refl, inl refl, inr refl)

run_command-ServerValid_example :
    Returns (λ (exit, s'). ServerValid s') (run_command 9 add_dave (pos 0) s)
run_command-ServerValid_example =
    run_command-ServerValid 9 s s-ServerValid add_dave (pos 0) add_dave-TypedFits

abbrev login_alice : Received
login_alice = from_home (codes "LOGIN alice secret")

-- two records, and then a login, a new account, a group and a word that is no command
abbrev pub events : List Event
events =
    received login_alice
    ∷ typed 9 add_dave (pos 0)
    ∷ received (from_home (codes "CREATEMULTICAST team"))
    ∷ received (from_home (codes "HELP"))
    ∷ []

pub events-fit : All EventFits events
unfolding parse_cmd strtok_r remove_end_line strcmp scan_word scan_line c_string
events-fit = (
  record { short = omega arith; null_client = refl; words = tt },
  (
    add_dave-TypedFits,
    (
      record { short = omega arith; null_client = refl; words = tt },
      (record { short = omega arith; null_client = refl; words = tt }, tt),
    ),
  ),
)

team_words : scan_name max_group_name (codes "team") ≡ ok (some (codes "team"))
unfolding scan_word
team_words = refl

cmd_getmulticast_lem_example :
    cmd_getmulticast 1 (codes "team") s
    ≡ ok (
        send_udp_message
          (session 1 true)
          (group_answer (find group_cmp (grp (codes "team") []) (groups_of s)))
          (record s { group_heap = scratch (grp (codes "team") []) s.group_heap }))
cmd_getmulticast_lem_example =
    cmd_getmulticast_lem 1 (codes "team") (codes "team") s (groups-IsValid 1 true 1) refl refl refl
      refl team_words (omega arith)

abbrev help : Received
help = from_home (codes "HELP")

help-ReceivedFits : ReceivedFits help
unfolding parse_cmd strtok_r remove_end_line strcmp c_string
help-ReceivedFits = record { short = omega arith; null_client = refl; words = tt }

serve-answers_example : Returns (λ s'. 2 ≤ length s'.sent) (serve 5 (hello ∷ help ∷ []) s)
serve-answers_example =
    serve-answers 5 (hello ∷ help ∷ []) s s-ServerValid
      (hello-ReceivedFits, (help-ReceivedFits, tt))

-- from another port, with what the stack holds
abbrev stray : Received
stray = record {
  sender = record { sin_addr = home.sin_addr; sin_port = 40002 };
  bytes = codes "MSG bob hello there";
  junk = 77;
}
