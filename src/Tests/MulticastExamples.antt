-- ===== src/Tests/MulticastExamples.antt =====
-- The theorems on groups, of the server in a run and of the client, at concrete inputs.
use rc_project.Base.{arith, ◌≡◌, refl, [], ◌∷◌, ◌>>=◌, some, true, ok, Returns, ◌+◌, inr}
use rc_project.Text.{codes}
use rc_project.Avl.Order.{find}
use rc_project.Server.{group_cmp, htons}
use rc_project.Server.Groups.{grp, groups_of}
use rc_project.Server.Commands.Multicast.{cmd_createmulticast}
use rc_project.Server.Safety.{ServerValid}
use rc_project.Server.Safety.Runs.{run_events}
use rc_project.Server.Safety.GroupRuns.{cmd_createmulticast-run_events}
use rc_project.ClientProgram.{
  buffer_size, group_size, multicast_port, Program, Packet, Reply, server_socket,
}
use rc_project.ClientProgram.Actions.{connect_multicast, send_multicast}
use rc_project.ClientProgram.Threads.{read_multicast}
use rc_project.ClientProgram.Reads.{IsLine}
use rc_project.ClientProgram.Multicast.{
  group_text, group_question, connect_multicast-joined, send_multicast-shown,
}
use rc_project.Tests.SafetyExamples.{s, s-ServerValid, events, events-fit}
use rc_project.Tests.CommandExamples.{new_words, no_club}
use rc_project.Tests.ClientFixtures.{
  machine, far, client, reply, live-bytes, line-bytes, ip-IsWord, carried,
}

cmd_createmulticast-run_events_example :
    Returns
      (λ s'.
        ServerValid s'
        × (find group_cmp (grp (codes "club") []) (groups_of s')
            ≡ some (grp (codes "club") (codes "239.0.0.2"))))
      (cmd_createmulticast 1 (codes "club") s >>= run_events 5 events)
cmd_createmulticast-run_events_example =
    cmd_createmulticast-run_events 1 (codes "club") (codes "club") s s-ServerValid
      (omega arith, refl) (inr ((omega arith, refl), refl)) refl refl new_words (omega arith) 5
      events (no_club 1 (codes "239.0.0.2")) refl events-fit

abbrev answered : Reply
answered = reply (group_text (codes "10.0.0.7"))

abbrev connecting : Program
connecting = client (codes "\nteam\n0\n") (some answered ∷ [])

team-IsLine : IsLine group_size (codes "team")
team-IsLine = record {
  nonempty = omega arith;
  fits = omega arith;
  bytes = line-bytes (codes "team") refl;
}

connect_multicast-joined_example :
    connect_multicast machine connecting
    ≡ ok (record connecting {
      stdin = codes "\n0\n";
      replies = [];
      screen = codes "Connect to group: " ∷ codes "Multicast IP: 10.0.0.7\n" ∷ [];
      sent =
          record {
            socket = server_socket;
            target = far;
            bytes = group_question (codes "team") (machine.junk (buffer_size + 17));
          }
          ∷ [];
      current_group = codes "team";
      multicast_ip = 239;
      memberships = 239 ∷ [];
      multicast_addr = record { s_addr = 239; sin_port = htons multicast_port };
    })
connect_multicast-joined_example =
    connect_multicast-joined machine connecting (codes "team") (codes "0\n") team-IsLine
      (live-bytes (codes "team") refl) refl answered [] refl (codes "10.0.0.7") ip-IsWord 239 refl
      refl
      (carried (buffer_size + 17) (group_text (codes "10.0.0.7")) refl (omega arith) (omega arith))

abbrev member : Program
member = record (client (codes "\nhi\n0\n") []) {
  current_group = codes "team";
  username = codes "alice";
  multicast_ip = 239;
}

hi-IsLine : IsLine buffer_size (codes "hi")
hi-IsLine = record {
  nonempty = omega arith;
  fits = omega arith;
  bytes = line-bytes (codes "hi") refl;
}

send_multicast-shown_example :
    Returns
      (λ p'.
        (x : Packet) × (p'.sent ≡ x ∷ [])
        × (x.target ≡ far)
        × (read_multicast machine true
              (some (record { sender = far; bytes = x.bytes }) ∷ [])
              connecting
            ≡ ok (record connecting {
              screen = codes "[Multicast] [GROUP team] alice : hi\n" ∷ [];
            })))
      (send_multicast machine member)
send_multicast-shown_example =
    send_multicast-shown machine machine member connecting far (codes "hi") (codes "0\n") hi-IsLine
      refl (omega arith) (live-bytes (codes "team") refl) (live-bytes (codes "alice") refl)
      (live-bytes (codes "hi") refl) (omega arith)
