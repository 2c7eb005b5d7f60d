-- ===== src/ClientProgram/Actions.antt =====
-- code/client/src/main.c: what the entries of the menu do.
use rc_project.Base.{
  ℕ, ◌+◌, true, false, List, [], ◌∷◌, ◌++◌, Option, none, some, ◌==◌, if◌then◌else◌, ℤ, Run, ok,
  fault, exited, ◌>>=◌, not,
}
use rc_project.Text.{Bytes, codes, starts_with}
use rc_project.Text.Decimal.{print_int}
use rc_project.Text.Scan.{scan_word, scan_int, skip_space, is_space, ◌>=>◌, matched, span}
use rc_project.Server.{htons}
use rc_project.ClientProgram.{
  buffer_size, username_size, group_size, ip_size, invalid_group, multicast_port, Machine, Program,
  Target, server_socket, p2p_socket, multicast_write_socket, print, string, print_to, next_line,
  read_word, read_line, send_to, receive, uint16,
}

-- `username[strcspn(username, "\n")] = '\0'`
abbrev pub before_newline : Bytes → Bytes
before_newline s = (span (λ c. if c == b'\n' then false else true) s).0

abbrev pub match_byte : ℕ → (List ℕ → Option (List ℕ)) → List ℕ → Option (List ℕ)
match_byte c f [] = none
match_byte c f (x ∷ s) = if x == c then f s else none

-- text of a format of sscanf, in which a space stands for any white space
abbrev pub match_text : Bytes → List ℕ → Option (List ℕ)
match_text [] s = some s
match_text (c ∷ f) s =
    let skipped = match_text f (skip_space s) in
    if is_space c then skipped else match_byte c (match_text f) s

abbrev pub literal : Bytes → List ℕ → Run (Option (Unit {0} × List ℕ))
literal f s = elim (match_text f s) [ none ↦ ok none | some rest ↦ ok (some (tt, rest)) ]

-- `sscanf(response, "%s IP: %s Port: %d", …)`
unfoldable pub scan_address : Bytes → Run (Option (Bytes × Bytes × ℤ))
scan_address response = scan_word username_size response >=> λ username r1.
    literal (codes " IP: ") r1 >=> λ _ r2. scan_word ip_size r2 >=> λ ip r3.
    literal (codes " Port: ") r3 >=> λ _ r4. scan_int r4 >=> λ port r5. matched (username, ip, port)

-- `sscanf(message, "Multicast IP %s", ip)`
unfoldable pub scan_group_ip : Bytes → Run (Option Bytes)
scan_group_ip message = literal (codes "Multicast IP ") message >=> λ _ rest.
    scan_word ip_size rest >=> λ ip rest'. matched ip

module _ (m : Machine) where
  unfoldable pub send_msg : Program → Run Program
  send_msg p = do
    (a, p1) ← read_word username_size (m.junk username_size) (print (codes "Send message to: ") p)
    username ← string a
    p2 ← next_line p1
    (b, p3) ← read_line 100 (m.junk 100) (print (codes "Message: ") p2)
    message ← string b
    let text = codes "MSG " ++ before_newline username ++ codes " " ++ message
    let msg = print_to buffer_size text (m.junk buffer_size)
    (got, p4) ← receive 100 b (send_to server_socket p3.server_addr msg p3)
    elim got [ none ↦ fault exited | some c ↦ (do answer ← string c; ok (print answer p4)) ]

  -- what follows the answer to P2P
  unfoldable pub send_p2p_message : Option (Bytes × Bytes × ℤ) → Program → Run Program
  send_p2p_message none p = ok (print (codes "Something went wrong...\n") p)
  send_p2p_message (some (username, ip, port)) p = do
    p1 ← next_line p
    (message, p2) ← read_line buffer_size (m.junk buffer_size) (print (codes "Message: ") p1)
    let p3 = print (codes "Send to " ++ ip ++ codes ":" ++ print_int port ++ codes "\n") p2
    let target_addr : Target = record { s_addr = m.inet_addr ip; sin_port = htons (uint16 port) }
    ok (send_to p2p_socket target_addr message p3)

  -- after an error the array is still what the stack held, and is read all the same
  abbrev pub response_or_junk : Option (List ℕ) → Program → List ℕ × Program
  response_or_junk none p = (m.junk buffer_size, print (codes "Error contacting the server...\n") p)
  response_or_junk (some c) p = (c, p)

  unfoldable pub send_p2p : Program → Run Program
  send_p2p p = do
    (a, p1) ← read_word username_size (m.junk username_size) (print (codes "Send message to: ") p)
    username ← string a
    let msg = print_to buffer_size (codes "P2P " ++ before_newline username) (m.junk buffer_size)
    (got, p2) ←
        receive buffer_size (m.junk buffer_size) (send_to server_socket p1.server_addr msg p1)
    let (response, p3) = response_or_junk got p2
    text ← string response
    res ← scan_address text
    send_p2p_message res p3

  -- the name of a group from the terminal, and a command with it to the server
  unfoldable pub ask_group :
      (prompt command : Bytes) → Program → Run (Bytes × Option (List ℕ) × Program)
  ask_group prompt command p = do
    p1 ← next_line (print prompt p)
    (a, p2) ← read_line group_size (m.junk group_size) p1
    group_name ← string a
    let message =
        print_to (buffer_size + 17) (command ++ codes " " ++ group_name) (m.junk (buffer_size + 17))
    (got, p3) ← receive (buffer_size + 17) message (send_to server_socket p2.server_addr message p2)
    ok (group_name, got, p3)

  unfoldable pub create_group_multicast : Program → Run Program
  create_group_multicast p = do
    (group_name, got, p1) ← ask_group (codes "Create group name: ") (codes "CREATEMULTICAST") p
    elim got [
      | none ↦ ok (print (codes "Error contacting the server...\n") p1)
      | some message ↦ (do text ← string message; ok (print text p1))
    ]

  -- the address that the server answers is joined, and kept if that succeeds
  unfoldable pub join : (group_name ip : Bytes) → Program → Program
  join group_name ip p =
      let multicast_ip : ℕ = elim (m.inet_pton ip) [ none ↦ p.multicast_ip | some a ↦ a ] in
      let p1 = record p { multicast_ip = multicast_ip } in
      if m.add_membership p.memberships multicast_ip
      then print (codes "Multicast IP: " ++ ip ++ codes "\n") (record p1 {
        memberships = p.memberships ++ (multicast_ip ∷ []);
        current_group = group_name;
        multicast_addr = record { s_addr = multicast_ip; sin_port = htons multicast_port };
      })
      else print (codes "Couldn't add membership to the multicast socket\n") p1

  unfoldable pub group_joined : (group_name message : Bytes) → Program → Run Program
  group_joined group_name message p =
      if not (starts_with message (codes "Multicast IP")) then ok (print message p) else (do
        res ← scan_group_ip message
        elim res [
          | none ↦ ok (print (codes "Something went wrong...\n") p)
          | some ip ↦ ok (join group_name ip p)
        ])

  unfoldable pub connect_multicast : Program → Run Program
  connect_multicast p = do
    (group_name, got, p1) ← ask_group (codes "Connect to group: ") (codes "GETMULTICAST") p
    elim got [
      | none ↦ ok (print (codes "Error contacting the server...\n") p1)
      | some message ↦ (do text ← string message; group_joined group_name text p1)
    ]

  unfoldable pub send_multicast : Program → Run Program
  send_multicast p =
      if p.multicast_ip == invalid_group
      then ok (print (codes "You are not in a group\n") p)
      else (do
        p1 ← next_line (print (codes "Write message [" ++ p.current_group ++ codes "]: ") p)
        (a, p2) ← read_line buffer_size (m.junk buffer_size) p1
        message ← string a
        let text =
            codes "[GROUP " ++ p.current_group ++ codes "] " ++ p.username ++ codes " : " ++ message
        let send = print_to (buffer_size + 100) text (m.junk (buffer_size + 100))
        ok (send_to multicast_write_socket p.multicast_addr send p2))
