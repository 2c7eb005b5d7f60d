-- ===== src/Tests.antt =====
-- Runs of the whole server at concrete inputs.
pub mod Fixtures
mod AvlExamples
mod SessionExamples
mod PoolExamples
mod QueueExamples
mod UserExamples
pub mod CommandExamples
pub mod SafetyExamples
mod StartExamples
pub mod ClientFixtures
mod ClientExamples
mod MulticastExamples
mod MeetingExamples
use mathlib.Core.List.{map}
use rc_project.Base.{◌≡◌, refl, List, [], ◌∷◌, Run, ok, ◌>>=◌, pos, false}
use rc_project.Memory.{load}
use rc_project.Text.{Bytes, codes, c_string}
use rc_project.Text.Decimal.{print_int}
use rc_project.Text.Scan.{scan_word, scan_line, scan_int}
use rc_project.Avl.{
  new_avl_node, update_height, rebalance_add, private_avl_add, private_avl_get, unlink,
  rebalance_remove, private_avl_remove,
}
use rc_project.Avl.Handle.{
  avl_get, avl_add, avl_remove, private_avl_rewrite, private_avl_print_client, avl_print_client,
}
use rc_project.Server.{
  Server, Client, Session, SockAddr, Group, Packet, datagram, stream, data_cmp, group_cmp,
  session_cmp, new_client, new_group, write_fd, send_to_client, inet_ntop,
}
use rc_project.Server.Connect.{init_client_session}
use rc_project.Server.Commands.{
  find_client, find_session, login_success, login_found, cmd_login, send_message, cmd_msg, cmd_p2p,
  send_address, message_target,
}
use rc_project.Server.Commands.Multicast.{
  create_group, create_new_group, cmd_createmulticast, cmd_getmulticast, answer_group,
}
use rc_project.Server.Commands.Table.{client_cmd_functions, client_cmd_function}
use rc_project.Server.Listen.{Received, terminate, udp_server_worker, serve}
use rc_project.Server.Admin
use rc_project.Server.Admin.{Read, handle_admin}
use rc_project.Server.Boot.{boot}

abbrev pub junk_client : Client
junk_client = record {
  username = [];
  password = [];
  ip = [];
  port = pos 0;
  client_server = pos 0;
  p2p = pos 0;
  group = pos 0;
}

abbrev pub home : SockAddr
home = record { sin_addr = 10 ∷ 0 ∷ 0 ∷ 7 ∷ []; sin_port = 40000 }

abbrev pub junk_session : Session
junk_session = record {
  client = 0;
  sock = home;
  ip = [];
  port = pos 0;
  socket = 0;
  logged_in = false;
}

abbrev pub junk_group : Group
junk_group = record { name = []; ip = [] }

abbrev typed : Bytes → Read
typed text = record { bytes = text; behind = 0 ∷ [] }

abbrev from_home : Bytes → Received
from_home text = record { sender = home; bytes = text; junk = 0 }

text_of : Packet → Bytes
text_of (datagram socket dest text) = text
text_of (stream fd text) = text

scenario : Run Server
unfolding boot handle_admin Admin.run_command Admin.cmd_function Admin.cmd_functions Admin.cmd_add
    Admin.add_user Admin.cmd_del Admin.delete_user Admin.cmd_list Admin.cmd_quit serve
    udp_server_worker init_client_session client_cmd_function client_cmd_functions cmd_login
    login_found login_success cmd_msg send_message send_address message_target cmd_p2p
    cmd_createmulticast create_group create_new_group cmd_getmulticast answer_group find_client
    find_session new_client new_group avl_get avl_add avl_remove private_avl_get private_avl_add
    private_avl_remove rebalance_add rebalance_remove update_height unlink new_avl_node
    private_avl_rewrite avl_print_client private_avl_print_client scan_word scan_line scan_int
    print_int write_fd send_to_client terminate c_string data_cmp group_cmp session_cmp inet_ntop
    load
scenario = do
  s0 ← boot junk_client junk_session junk_group []
  s1 ←
      handle_admin 9
        (typed (codes "ADD alice 10.0.0.7 secret 1 1 1\n")
          ∷ typed (codes "ADD bob 10.0.0.8 hunter2 0 1 0\n")
          ∷ typed (codes "LIST\n")
          ∷ typed (codes "QUIT\n")
          ∷ [])
        (pos 0) s0
  serve 5
      (from_home (codes "LOGIN alice secret")
        ∷ from_home (codes "CREATEMULTICAST team")
        ∷ from_home (codes "GETMULTICAST team")
        ∷ from_home (codes "P2P alice")
        ∷ [])
      s1

texts : Run (List Bytes)
unfolding scenario text_of
texts = do s ← scenario; ok (map text_of s.sent)

texts_lem :
    texts
    ≡ ok (
        codes "User alice created.\n"
        ∷ codes "User bob created.\n"
        ∷ codes "User: alice\n"
        ∷ codes "User: bob\n"
        ∷ codes "Login successfully\n"
        ∷ codes "40000\n"
        ∷ codes "Current account permissions:\n\tClient-Server: YES\n\tP2P: YES\n\tGroup: YES\n"
        ∷ codes "Group team Multicast ip: 239.0.0.1\n"
        ∷ codes "Multicast IP 239.0.0.1\n"
        ∷ codes "alice IP: 10.0.0.7 Port: 40000\n"
        ∷ [])
unfolding texts
texts_lem = refl
