-- ===== src/Tests/SessionExamples.antt =====
-- The theorems on the sessions and on P2P and MSG at concrete datagrams.
use rc_project.Base.{◌<◌, ◌≡◌, refl, arith, true, Returns, none, some, ok, length}
use rc_project.Memory.{Ptr, IsBlock}
use rc_project.Text.{codes, strcmp}
use rc_project.Text.Decimal.{digits}
use rc_project.Text.Scan.{scan_word, scan_line}
use rc_project.Avl.{elements}
use rc_project.Avl.Order.{find, insert_sorted}
use rc_project.Server.{Server, SockAddr, data_cmp, session_cmp, sub_int, username_size, inet_ntop}
use rc_project.Server.Connect.{init_client_session}
use rc_project.Server.Sessions.{
  SessionsValid, sessions_of, first_session, init_client_session-first,
}
use rc_project.Server.Users.{users, named}
use rc_project.Server.Commands.{scan_name, scan_msg}
use rc_project.Server.Commands.Delivery.{addressed}
use rc_project.Tests.{home}
use rc_project.Tests.Fixtures.{alice, carol, session, server, sessions-IsValid}

abbrev busy : Server
busy = server 1 true 1

-- another port of the same host
abbrev elsewhere : SockAddr
elsewhere = record home { sin_port = 7 }

known_home : find session_cmp (first_session 0 home 5) (sessions_of busy) ≡ some (session 1 true)
unfolding find session_cmp strcmp sub_int elements inet_ntop digits
known_home = refl

unknown_elsewhere : find session_cmp (first_session 0 elsewhere 5) (sessions_of busy) ≡ none
unfolding find session_cmp strcmp sub_int elements inet_ntop digits
unknown_elsewhere = refl

init_client_session-first_example :
    Returns
      (λ (found, s').
        (p : Ptr) × (found ≡ some p)
        × IsBlock s'.sessions p
        × (s'.sessions.cell p ≡ first_session 0 elsewhere 5)
        × SessionsValid s'
        × (sessions_of s'
            ≡ insert_sorted session_cmp (first_session 0 elsewhere 5) (sessions_of busy))
        × (s' ≡ record busy { sessions = s'.sessions; user_session_list = s'.user_session_list }))
      (init_client_session 0 elsewhere 5 busy)
init_client_session-first_example =
    init_client_session-first 0 elsewhere 5 busy sessions-IsValid unknown_elsewhere

an_alice : find data_cmp (named (codes "alice")) (users busy) ≡ some alice
unfolding find data_cmp strcmp elements
an_alice = refl

a_carol : find data_cmp (named (codes "carol")) (users busy) ≡ some carol
unfolding find data_cmp strcmp elements
a_carol = refl

alices_session :
    find session_cmp (addressed alice.ip alice.port) (sessions_of busy) ≡ some (session 1 true)
unfolding find session_cmp strcmp sub_int elements
alices_session = refl

no_session : find session_cmp (addressed carol.ip carol.port) (sessions_of busy) ≡ none
unfolding find session_cmp strcmp sub_int elements
no_session = refl

alice_word : scan_name username_size (codes "alice") ≡ ok (some (codes "alice"))
unfolding scan_word
alice_word = refl

carol_word : scan_name username_size (codes "carol") ≡ ok (some (codes "carol"))
unfolding scan_word
carol_word = refl

message_words :
    scan_msg (codes "alice hello there") ≡ ok (some (codes "alice", codes "hello there"))
unfolding scan_word scan_line
message_words = refl

alice_fits : length (codes "alice") < username_size
alice_fits = omega arith

carol_fits : length (codes "carol") < username_size
carol_fits = omega arith
