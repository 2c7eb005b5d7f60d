-- ===== src/Tests/MeetingExamples.antt =====
-- A client at a second port logs in, and the one of the first port asks for its address.
use rc_project.Text.Decimal.{digits, print_int}
use rc_project.Server.{
  inet_ntop, htons, Server, Session, Packet, datagram, session_cmp, data_cmp, buffer_size,
  username_size,
}
use mathlib.Core.List.Perm
use rc_project.Base.{
  take, ◌+◌, arith, ◌≡◌, refl, ◌==◌, ◌++◌, List, [], ◌∷◌, ◌>>=◌, some, ok, true, false, pos,
  Returns, inl, inr, if◌then◌else◌,
}
use rc_project.Text.{codes, strcmp, snprintf}
use rc_project.Text.Scan.{scan_word, scan_line}
use rc_project.Avl.{null, node, elements}
use rc_project.Avl.Order.{find, insert_sorted}
use rc_project.Avl.Sorting.{insert_all}
use rc_project.Server.Users.{users, named}
use rc_project.Server.Sessions.{SessionsValid, sessions_of}
use rc_project.Server.Commands.{cmd_login, cmd_msg, cmd_p2p, scan_login, scan_msg, scan_name}
use rc_project.Server.Commands.Login.{is_admitted}
use rc_project.Server.Safety.{ServerValid}
use rc_project.Server.Safety.Meeting.{cmd_login-cmd_p2p, cmd_login-cmd_msg}
use rc_project.Tests.{home}
use rc_project.Tests.Fixtures.{alice, server, session, users-IsValid, groups-IsValid}

abbrev guest : Session
guest = record (session 0 false) {
  sock = record { sin_addr = home.sin_addr; sin_port = 40001 };
  port = pos 40001;
}

abbrev both : Server
both = record (server 1 true 1) {
  sessions = record {
    cell = λ p. if p == 1 then session 2 true else guest;
    live = λ p. (if p == 1 then true else p == 2);
    next = 3;
  };
  user_session_list = record { size = 2; root = node 1 1 null (node 1 2 null null); file = [] };
}

both-sessions : SessionsValid both
unfolding elements session_cmp strcmp
both-sessions = record {
  flat = (omega arith, tt, (omega arith, tt, tt));
  ordered = (tt, (refl, tt), tt, (tt, tt, tt, tt));
  allocated = ((omega arith, refl), ((omega arith, refl), tt));
}

both-ServerValid : ServerValid both
unfolding elements insert_all insert_sorted data_cmp strcmp inet_ntop digits
both-ServerValid = record {
  accounts = users-IsValid;
  sessions = both-sessions;
  groups = groups-IsValid 1 true 1;
  bound = (inr ((omega arith, refl), refl), (inl (refl, refl), tt));
  peers = ((refl, refl), ((refl, refl), tt));
  flags = (
    (inr refl, inr refl, inr refl),
    ((inr refl, inr refl, inr refl), ((inr refl, inl refl, inl refl), tt)),
  );
  persisted = refl;
  addresses = Perm.refl _;
}

login_words : scan_login (codes "alice secret") ≡ ok (some (codes "alice", codes "secret"))
unfolding scan_word
login_words = refl

name_words : scan_name username_size (codes "alice") ≡ ok (some (codes "alice"))
unfolding scan_word
name_words = refl

guest_listed : find session_cmp guest (sessions_of both) ≡ some guest
unfolding find session_cmp strcmp elements
guest_listed = refl

alice_known : find data_cmp (named (codes "alice")) (users both) ≡ some alice
unfolding find data_cmp strcmp elements
alice_known = refl

alice_admitted : is_admitted (some alice) guest (codes "secret") ≡ true
unfolding strcmp
alice_admitted = refl

cmd_login-cmd_p2p_example :
    Returns
      (λ s2.
        (before : List Packet) × (s2.sent
          ≡ before
            ++ (datagram 5 home (
                  snprintf buffer_size (
                    codes "alice"
                    ++ codes " IP: "
                    ++ inet_ntop home.sin_addr
                    ++ codes " Port: "
                    ++ print_int (pos 40001)
                    ++ codes "\n"))
                ∷ [])))
      (cmd_login 2 (codes "alice secret") both >>= cmd_p2p 1 (codes "alice"))
cmd_login-cmd_p2p_example =
    cmd_login-cmd_p2p both both-ServerValid 1 2 (omega arith) (codes "alice secret") (codes "alice")
      (codes "alice") (codes "secret") (omega arith, refl) refl login_words (omega arith)
      guest_listed (omega arith, refl) (inr ((omega arith, refl), refl)) refl alice_known
      alice_admitted refl name_words

message_words :
    scan_msg (codes "alice hello there") ≡ ok (some (codes "alice", codes "hello there"))
unfolding scan_word scan_line
message_words = refl

cmd_login-cmd_msg_example :
    Returns
      (λ s2.
        (before : List Packet) × (s2.sent
          ≡ before
            ++ (datagram 5
                  (record { sin_addr = home.sin_addr; sin_port = htons 40001 })
                  (take buffer_size (
                    snprintf (buffer_size + 100) (
                      codes "bob"
                      ++ codes " ("
                      ++ codes "10.0.0.7"
                      ++ codes ":"
                      ++ print_int (pos 40000)
                      ++ codes ") : "
                      ++ codes "hello there")))
                ∷ datagram 5 home (snprintf buffer_size (codes "Message sent\n"))
                ∷ [])))
      (cmd_login 2 (codes "alice secret") both >>= cmd_msg 1 (codes "alice hello there"))
cmd_login-cmd_msg_example =
    cmd_login-cmd_msg both both-ServerValid 1 2 (omega arith) (codes "alice secret")
      (codes "alice hello there") (codes "alice") (codes "secret") (omega arith, refl) refl
      login_words (omega arith) guest_listed (omega arith, refl) (inr ((omega arith, refl), refl))
      refl alice_known alice_admitted refl message_words
