-- ===== src/ClientProgram/Outcome.antt =====
-- What the client makes of the words that are typed and the answers of the server.
use rc_project.Base.{
  ◌^◌, ◌<◌, ◌≡◌, ◌≢◌, refl, ◌∙◌, arith, ℕ, List, [], ◌∷◌, ◌++◌, Option, none, some, ok, ◌>>=◌,
  fault, overflow, exited, length, All, All-imp, take, pos,
}
use rc_project.Text.{Bytes, codes}
use rc_project.Text.Decimal.{print_int}
use rc_project.Text.Scan.Words.{IsWord, IsWordByte}
use rc_project.Server.{htons, Server}
use rc_project.ClientProgram.{
  buffer_size, username_size, ip_size, Machine, Program, Packet, Reply, Target, server_socket,
  p2p_socket, string, put, print, print_to, send_to, skip_line, read_word, receive, uint16,
}
use rc_project.ClientProgram.Actions.{send_msg, send_p2p, send_p2p_message, before_newline}
use rc_project.ClientProgram.Reads.{
  IsLine, Carries, IsWord-live, string-put, read_word-word, read_line-line, before_newline-text,
  receive-text, receive-long,
}
use rc_project.ClientProgram.Datagrams.{datagram_of}
use rc_project.ClientProgram.Protocol.{scan_address-answer}

word-no_newline : (size : ℕ) (w : Bytes) → IsWord size w → All (λ c. c ≢ b'\n') w
word-no_newline size w h = All-imp (λ c (p : IsWordByte c). ground arith) w h.bytes

-- the text of the server's answer to P2P
abbrev pub p2p_answer : (username ip : Bytes) → (port : ℕ) → Bytes
p2p_answer username ip port =
    username ++ codes " IP: " ++ ip ++ codes " Port: " ++ print_int (pos port) ++ codes "\n"

abbrev pub packet_to_server : Target → (text a : Bytes) → Packet
packet_to_server addr text a = record {
  socket = server_socket;
  target = addr;
  bytes = datagram_of text a;
}

module _ (m : Machine) (p : Program) (username line rest : Bytes)
    (hu : IsWord username_size username) where
  -- the name in the array that it is read into
  abbrev name : Bytes
  name = put username (m.junk username_size)

  abbrev asked : Program
  asked = print (codes "Send message to: ") p

  name_read :
      p.stdin ≡ username ++ (b'\n' ∷ line ++ (b'\n' ∷ rest))
      → read_word username_size (m.junk username_size) asked
        ≡ ok (name, record asked { stdin = b'\n' ∷ line ++ (b'\n' ∷ rest) })
  name_read e =
      read_word-word username_size (m.junk username_size) username (b'\n' ∷ line ++ (b'\n' ∷ rest))
        asked e hu refl

  name_string : string name ≡ ok username
  name_string = string-put username (m.junk username_size) (IsWord-live username_size username hu)

  name_whole : before_newline username ≡ username
  name_whole = before_newline-text username (word-no_newline username_size username hu)

  module _ (e : p.stdin ≡ username ++ (b'\n' ∷ line ++ (b'\n' ∷ rest))) (r : Reply)
      (rs : List (Option Reply)) (er : p.replies ≡ some r ∷ rs) where
    module _ (ip : Bytes) (port : ℕ) (hi : IsWord ip_size ip) (hp : port < 2 ^ 31)
        (hl : IsLine buffer_size line)
        (carries : Carries buffer_size (p2p_answer username ip port) r.bytes) where
      abbrev pub p2p_asked : Program
      p2p_asked = record p {
        stdin = b'\n' ∷ rest;
        replies = rs;
        server_addr = r.sender;
        screen =
            p.screen
            ++ (codes "Send message to: " ∷ [])
            ++ (codes "Message: " ∷ [])
            ++ ((codes "Send to " ++ ip ++ codes ":" ++ print_int (pos port) ++ codes "\n") ∷ []);
        sent =
            p.sent
            ++ (packet_to_server p.server_addr (codes "P2P " ++ username) (m.junk buffer_size) ∷ [])
            ++ (record {
              socket = p2p_socket;
              target = record { s_addr = m.inet_addr ip; sin_port = htons (uint16 (pos port)) };
              bytes = take buffer_size (put line (m.junk buffer_size));
            }
                ∷ []);
      }

      -- The user types a name and a message, and the server answers with the address and the port of
      -- that name: the client asks the server for the name, and sends the message to that address
      -- and port. The name, the address and the message fit their arrays, and the port is below
      -- 2 ^ 31.
      pub send_p2p-delivered : send_p2p m p ≡ ok p2p_asked
      unfolding send_p2p send_p2p_message skip_line
      send_p2p-delivered =
          let s1 = record asked { stdin = b'\n' ∷ line ++ (b'\n' ∷ rest) } in
          let s2 =
            send_to server_socket p.server_addr
              (print_to buffer_size (codes "P2P " ++ username) (m.junk buffer_size)) s1 in
          let (b, got, is) =
            receive-text buffer_size (m.junk buffer_size) (p2p_answer username ip port) r rs s2 er
              carries in
          let s3 = record s2 {
            stdin = line ++ (b'\n' ∷ rest);
            replies = rs;
            server_addr = r.sender;
          } in
          let read =
            read_line-line buffer_size (m.junk buffer_size) line rest (print (codes "Message: ") s3)
              refl hl in
          rw (name_read e, name_string, name_whole)
            (rw (got, is, scan_address-answer username ip port hu hi hp) (rw read refl))

    module _ (hl : IsLine 100 line) (live : All (λ c. c ≢ 0) line) where
      msg_sent : Program
      msg_sent =
          send_to server_socket p.server_addr
            (print_to buffer_size (codes "MSG " ++ username ++ codes " " ++ line)
              (m.junk buffer_size))
            (print (codes "Message: ") (record asked { stdin = b'\n' ∷ rest }))

      msg_read : send_msg m p ≡ (do
        (got, p4) ← receive 100 (put line (m.junk 100)) msg_sent
        elim got [ none ↦ fault exited | some c ↦ (do answer ← string c; ok (print answer p4)) ])
      unfolding send_msg skip_line msg_sent
      msg_read =
          let s1 = record asked { stdin = line ++ (b'\n' ∷ rest) } in
          let read =
            read_line-line 100 (m.junk 100) line rest (print (codes "Message: ") s1) refl hl in
          rw (name_read e, name_string, name_whole)
            (rw (read, string-put line (m.junk 100) live) refl)

      -- The user types a name and a message that fit their arrays: MSG with both is sent to the server,
      -- and the answer is printed, if its datagram has at most 100 bytes.
      pub send_msg-answered :
          (text : Bytes)
          → Carries 100 text r.bytes
          → send_msg m p
            ≡ ok (record p {
              stdin = b'\n' ∷ rest;
              replies = rs;
              server_addr = r.sender;
              screen =
                  p.screen
                  ++ (codes "Send message to: " ∷ [])
                  ++ (codes "Message: " ∷ [])
                  ++ (text ∷ []);
              sent =
                  p.sent
                  ++ (packet_to_server p.server_addr
                        (codes "MSG " ++ username ++ codes " " ++ line)
                        (m.junk buffer_size)
                      ∷ []);
            })
      unfolding msg_sent
      send_msg-answered text carries =
          let (b, got, is) =
            receive-text 100 (put line (m.junk 100)) text r rs msg_sent er carries in
          msg_read ∙ rw got (rw is refl)

      -- But an answer of more than 100 bytes, such as one of the BUFFER_SIZE bytes that the server
      -- sends, is written past the end of the array `message`.
      pub send_msg-overflow : 100 < length r.bytes → send_msg m p ≡ fault overflow
      unfolding msg_sent
      send_msg-overflow long =
          let got = receive-long 100 (put line (m.junk 100)) r rs msg_sent er long (omega arith) in
          msg_read ∙ rw got refl
