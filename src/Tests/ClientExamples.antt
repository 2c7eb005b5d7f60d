-- ===== src/Tests/ClientExamples.antt =====
-- The theorems on the client at concrete words and datagrams.
use mathlib.Core.List.{map}
use rc_project.Base.{
  arith, ◌≡◌, ◌≢◌, refl, ℕ, zero, suc, [], ◌∷◌, ◌++◌, some, true, ok, fault, overflow, unfinished,
  pos, take, length, ap, Returns,
}
use rc_project.Text.{Bytes, codes}
use rc_project.Text.Decimal.{print_int, digits}
use rc_project.Server.{htons, datagram}
use rc_project.Server.Commands.{send_address}
use rc_project.ClientProgram.{buffer_size, Program, p2p_socket, put, uint16}
use rc_project.ClientProgram.Actions.{scan_address, send_p2p, send_msg}
use rc_project.ClientProgram.Menu.{options, authenticate}
use rc_project.ClientProgram.Threads.{read_msg}
use rc_project.ClientProgram.Reads.{Carries}
use rc_project.ClientProgram.Protocol.{send_address-scan_address}
use rc_project.ClientProgram.Outcome.{
  p2p_answer, packet_to_server, send_p2p-delivered, send_msg-answered, send_msg-overflow,
}
use rc_project.ClientProgram.Login.{authenticate-admitted}
use rc_project.ClientProgram.Inbox.{Message, shown, read_msg-shown}
use rc_project.ClientProgram.Rounds.{options-finishes}
use rc_project.Tests.{home}
use rc_project.Tests.Fixtures.{server}
use rc_project.Tests.ClientFixtures.{
  alice-IsWord, carried, client, far, hello-IsLine, ip-IsWord, live-bytes, machine, reply,
  secret-IsWord, zeros,
}

length-zeros : (n : ℕ) → length (zeros n) ≡ n
length-zeros zero = refl
length-zeros (suc n) = ap suc (length-zeros n)

-- `alice`, a line and one more
abbrev typed_lines : Bytes
typed_lines = codes "alice\nhello\n0\n"

abbrev asking : Program
asking = client typed_lines (some (reply (p2p_answer (codes "alice") (codes "10.0.0.7") 7)) ∷ [])

answer-Carries :
    Carries buffer_size
      (p2p_answer (codes "alice") (codes "10.0.0.7") 7)
      (reply (p2p_answer (codes "alice") (codes "10.0.0.7") 7)).bytes
unfolding print_int digits
answer-Carries =
    carried buffer_size (codes "alice IP: 10.0.0.7 Port: 7\n") refl (omega arith) (omega arith)

send_p2p-delivered_example :
    send_p2p machine asking
    ≡ ok (record asking {
      stdin = codes "\n0\n";
      replies = [];
      screen =
          codes "Send message to: "
          ∷ codes "Message: "
          ∷ (codes "Send to 10.0.0.7:" ++ print_int (pos 7) ++ codes "\n")
          ∷ [];
      sent =
          packet_to_server far (codes "P2P alice") (machine.junk buffer_size)
          ∷ record {
            socket = p2p_socket;
            target = record { s_addr = 7; sin_port = htons (uint16 (pos 7)) };
            bytes = take buffer_size (put (codes "hello") (machine.junk buffer_size));
          }
          ∷ [];
    })
send_p2p-delivered_example =
    send_p2p-delivered machine asking (codes "alice") (codes "hello") (codes "0\n") alice-IsWord
      refl (reply (p2p_answer (codes "alice") (codes "10.0.0.7") 7)) [] refl (codes "10.0.0.7") 7
      ip-IsWord (omega arith) (hello-IsLine buffer_size (omega arith)) answer-Carries

-- an answer of two bytes, and one of 200
abbrev short : Program
short = client typed_lines (some (reply (codes "ok")) ∷ [])

abbrev long : Program
long = client typed_lines (some (record { sender = far; bytes = zeros 200 }) ∷ [])

send_msg-answered_example :
    send_msg machine short
    ≡ ok (record short {
      stdin = codes "\n0\n";
      replies = [];
      screen = codes "Send message to: " ∷ codes "Message: " ∷ codes "ok" ∷ [];
      sent = packet_to_server far (codes "MSG alice hello") (machine.junk buffer_size) ∷ [];
    })
send_msg-answered_example =
    send_msg-answered machine short (codes "alice") (codes "hello") (codes "0\n") alice-IsWord refl
      (reply (codes "ok")) [] refl (hello-IsLine 100 (omega arith))
      (live-bytes (codes "hello") refl) (codes "ok")
      (carried 100 (codes "ok") refl (omega arith) (omega arith))

send_msg-overflow_example : send_msg machine long ≡ fault overflow
send_msg-overflow_example =
    send_msg-overflow machine long (codes "alice") (codes "hello") (codes "0\n") alice-IsWord refl
      (record { sender = far; bytes = zeros 200 }) [] refl (hello-IsLine 100 (omega arith))
      (live-bytes (codes "hello") refl) (let e = length-zeros 200 in omega arith)

-- a login that succeeds, and an end of the menu
abbrev admitted : Program
admitted = client (codes "alice\nsecret\n0\n") (
    some (reply (codes "Login successfully\n"))
    ∷ some (reply (print_int (pos 7) ++ codes "\n"))
    ∷ some (reply (codes "P2P: YES\n"))
    ∷ [])

port-Carries :
    Carries buffer_size
      (print_int (pos 7) ++ codes "\n")
      (reply (print_int (pos 7) ++ codes "\n")).bytes
unfolding print_int digits
port-Carries = carried buffer_size (codes "7\n") refl (omega arith) (omega arith)

authenticate-admitted_example :
    authenticate machine admitted
    ≡ options machine (record admitted {
      stdin = codes "\n0\n";
      replies = [];
      username = codes "alice";
      password = codes "secret";
      message_port = pos 7;
      message_thread = true;
      screen =
          codes "Login menu:\n"
          ∷ codes "Username: "
          ∷ codes "Password: "
          ∷ codes "Login successfully\n"
          ∷ codes "P2P: YES\n"
          ∷ [];
      sent = packet_to_server far (codes "LOGIN alice secret") (machine.junk buffer_size) ∷ [];
    })
authenticate-admitted_example =
    authenticate-admitted machine admitted (codes "alice") (codes "secret") (codes "0\n")
      alice-IsWord secret-IsWord refl (reply (codes "Login successfully\n"))
      (reply (print_int (pos 7) ++ codes "\n")) (reply (codes "P2P: YES\n")) [] 7
      (codes "P2P: YES\n") refl (omega arith)
      (carried buffer_size (codes "Login successfully\n") refl (omega arith) (omega arith))
      port-Carries (carried buffer_size (codes "P2P: YES\n") refl (omega arith) (omega arith))

message : Message
message = record {
  reply = reply (codes "bob : hi");
  text = codes "bob : hi";
  carries = carried buffer_size (codes "bob : hi") refl (omega arith) (omega arith);
}

read_msg-shown_example :
    read_msg machine true (map (λ (x : Message). some x.reply) (message ∷ message ∷ [])) short
    ≡ ok (record short { screen = map (shown machine) (message ∷ message ∷ []) })
read_msg-shown_example = read_msg-shown machine (message ∷ message ∷ []) short

options-finishes_example : options machine admitted ≢ fault unfinished
options-finishes_example = options-finishes machine admitted

send_address-scan_address_example :
    Returns
      (λ s'.
        (text : Bytes) × (s'.sent ≡ datagram 5 home text ∷ [])
        × (scan_address text ≡ ok (some (codes "alice", codes "10.0.0.7", pos 40000))))
      (send_address 1 (codes "alice") (some 1, server 1 true 1))
unfolding print_int digits
send_address-scan_address_example =
    send_address-scan_address 1 1 (codes "alice") 40000 (server 1 true 1) refl refl alice-IsWord
      ip-IsWord refl (omega arith) (omega arith)

-- the end of a line, an option that is none, and the 0
abbrev leaving : Program
leaving = client (codes "\n9\n0\n") []
