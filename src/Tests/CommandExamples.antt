-- ===== src/Tests/CommandExamples.antt =====
-- The theorems on the clients' commands at concrete datagrams.
use rc_project.Base.{
  ◌≢◌, ℕ, arith, ◌<◌, ◌≡◌, refl, [], ◌++◌, true, false, Returns, none, some, ok, inr, length,
}
use rc_project.Text.{Bytes, codes, strcmp}
use rc_project.Text.Scan.{scan_word}
use rc_project.Avl.{elements}
use rc_project.Avl.Order.{find, insert_sorted}
use rc_project.Server.{Server, data_cmp, group_cmp, username_size, max_group_name, send_udp_message}
use rc_project.Server.Users.{users, named}
use rc_project.Server.Groups.{GroupsValid, groups_of, grp}
use rc_project.Server.Groups.Create.{
  cmd_createmulticast-new, cmd_createmulticast-taken, cmd_createmulticast-full,
}
use rc_project.Server.Commands.{cmd_login, scan_login, scan_name}
use rc_project.Server.Commands.Multicast.{cmd_createmulticast}
use rc_project.Server.Commands.Table.{
  ClientCommand, login, msg, p2p, createmulticast, getmulticast, client_cmd_functions,
}
use rc_project.Server.Commands.Access.{
  client_cmd_functions-not_logged_in, client_cmd_functions-no_permission, command_name,
}
use rc_project.Server.Commands.Lookup.{searched}
use rc_project.Server.Commands.Login.{refusal, is_admitted}
use rc_project.Server.Commands.LoggedIn.{LoggedIn}
use rc_project.Server.Commands.Outcome.{cmd_login-refused, cmd_login-admitted}
use rc_project.Tests.Fixtures.{alice, session, server, users-IsValid, groups-IsValid, team}

-- nobody is logged in; alice is; carol, who may send messages alone, is
abbrev idle : Server
idle = server 0 false 1

abbrev busy : Server
busy = server 1 true 1

abbrev carols : Server
carols = server 3 true 1

an_alice : find data_cmp (named (codes "alice")) (users idle) ≡ some alice
unfolding find data_cmp strcmp elements
an_alice = refl

five : length (codes "alice") < username_size
five = omega arith

login_words : scan_login (codes "alice secret") ≡ ok (some (codes "alice", codes "secret"))
unfolding scan_word
login_words = refl

wrong_words : scan_login (codes "alice guess") ≡ ok (some (codes "alice", codes "guess"))
unfolding scan_word
wrong_words = refl

may_login : is_admitted (some alice) (session 0 false) (codes "secret") ≡ true
unfolding strcmp
may_login = refl

may_not_login :
    is_admitted
      (find data_cmp (named (codes "alice")) (users idle))
      (session 0 false)
      (codes "guess")
    ≡ false
unfolding find data_cmp strcmp elements
may_not_login = refl

cmd_login-admitted_example :
    Returns (LoggedIn 1 alice idle) (cmd_login 1 (codes "alice secret") idle)
cmd_login-admitted_example =
    cmd_login-admitted 1 (codes "alice secret") idle users-IsValid refl refl (codes "alice")
      (codes "secret") login_words five an_alice may_login (inr refl) (inr refl) (inr refl)

cmd_login-refused_example :
    cmd_login 1 (codes "alice guess") idle
    ≡ ok (
        send_udp_message
          (session 0 false)
          (refusal (find data_cmp (named (codes "alice")) (users idle)) (session 0 false))
          (searched (codes "alice") idle users-IsValid five))
cmd_login-refused_example =
    cmd_login-refused 1 (codes "alice guess") idle users-IsValid refl refl (codes "alice")
      (codes "guess") wrong_words five may_not_login

msg-ne-login : msg ≢ login
msg-ne-login e = cc

p2p-ne-login : p2p ≢ login
p2p-ne-login e = cc

client_cmd_functions-not_logged_in_example :
    client_cmd_functions msg 1 (codes "bob hello") idle
    ≡ ok (
        send_udp_message
          (session 0 false)
          (codes "You need to be logged in to perform this command\n")
          idle)
client_cmd_functions-not_logged_in_example =
    client_cmd_functions-not_logged_in 1 (codes "bob hello") idle refl msg msg-ne-login refl

client_cmd_functions-no_permission_example :
    client_cmd_functions p2p 1 (codes "bob") carols
    ≡ ok (
        send_udp_message
          (session 3 true)
          (codes "You do not have permission to use this command\n")
          carols)
client_cmd_functions-no_permission_example =
    client_cmd_functions-no_permission 1 (codes "bob") carols refl p2p p2p-ne-login refl refl refl
      tt

other_word : (c : ClientCommand) → codes "HELP" ≢ command_name c
other_word login e = cc
other_word msg e = cc
other_word p2p e = cc
other_word createmulticast e = cc
other_word getmulticast e = cc

pub new_words : scan_name max_group_name (codes "club") ≡ ok (some (codes "club"))
unfolding scan_word
new_words = refl

team_words : scan_name max_group_name (codes "team") ≡ ok (some (codes "team"))
unfolding scan_word
team_words = refl

pub no_club :
    (given : ℕ) (ip : Bytes)
    → find group_cmp (grp (codes "club") ip) (groups_of (server 1 true given)) ≡ none
unfolding find group_cmp strcmp elements
no_club given ip = refl

pub a_team : find group_cmp (grp (codes "team") []) (groups_of busy) ≡ some team
unfolding find group_cmp strcmp elements
a_team = refl

cmd_createmulticast-new_example :
    Returns
      (λ s'.
        GroupsValid s'
        × (groups_of s'
            ≡ insert_sorted group_cmp (grp (codes "club") (codes "239.0.0.2")) (groups_of busy))
        × (s'
            ≡ send_udp_message
                (session 1 true)
                (codes "Group "
                  ++ codes "club"
                  ++ codes " Multicast ip: "
                  ++ codes "239.0.0.2"
                  ++ codes "\n")
                (record busy {
                  current_group = 2;
                  group_heap = s'.group_heap;
                  group_list = s'.group_list;
                })))
      (cmd_createmulticast 1 (codes "club") busy)
cmd_createmulticast-new_example =
    cmd_createmulticast-new 1 (codes "club") (codes "club") busy (groups-IsValid 1 true 1) refl refl
      refl refl new_words (omega arith) (no_club 1 (codes "239.0.0.2")) refl

cmd_createmulticast-taken_example :
    Returns
      (λ s'.
        GroupsValid s'
        × (groups_of s' ≡ groups_of busy)
        × (s'
            ≡ send_udp_message
                (session 1 true)
                (codes "Duplicated group name\n")
                (record busy { group_heap = s'.group_heap })))
      (cmd_createmulticast 1 (codes "team") busy)
cmd_createmulticast-taken_example =
    cmd_createmulticast-taken 1 (codes "team") (codes "team") busy (groups-IsValid 1 true 1) refl
      refl refl refl team_words (omega arith) a_team

abbrev all_given : Server
all_given = server 1 true 6

cmd_createmulticast-full_example :
    Returns
      (λ s'.
        GroupsValid s'
        × (groups_of s' ≡ groups_of all_given)
        × (s'
            ≡ send_udp_message
                (session 1 true)
                (codes "Cannot create more groups\n")
                (record all_given { group_heap = s'.group_heap })))
      (cmd_createmulticast 1 (codes "club") all_given)
cmd_createmulticast-full_example =
    cmd_createmulticast-full 1 (codes "club") (codes "club") all_given (groups-IsValid 1 true 6)
      refl refl refl refl new_words (omega arith) (no_club 6 []) (omega arith)
