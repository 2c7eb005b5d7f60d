-- ===== src/ClientProgram/Multicast.antt =====
-- The groups of the client: how it joins one, and what is sent to it.
use rc_project.Base.{
  ◌+◌, ◌-◌, ◌<◌, ◌≡◌, ◌≢◌, refl, ap, sym, ◌∙◌, arith, ℕ, List, [], ◌∷◌, ◌++◌, Option, some, ok,
  length, All, All-append, Returns, take, true, false, append_assoc, append-nil, ◌==◌,
}
use mathlib.Core.List.{map}
use rc_project.Text.{Bytes, codes, starts_with}
use rc_project.Text.Prefix.{starts_with-append}
use rc_project.Text.Scan.{skip_space}
use rc_project.Text.Scan.Words.{IsWord, scan_word-word, skip_space-word, take-le, take-string}
use rc_project.Server.{htons}
use rc_project.ClientProgram.{
  buffer_size, group_size, ip_size, invalid_group, multicast_port, Machine, Program, Packet, Reply,
  Target, server_socket, multicast_write_socket, put, print, print_to, drop_front, send_to,
  skip_line,
}
use rc_project.ClientProgram.Actions.{
  scan_group_ip, ask_group, join, group_joined, connect_multicast, send_multicast,
}
use rc_project.ClientProgram.Threads.{read_multicast, read_multicast_loop}
use rc_project.ClientProgram.Reads.{
  IsLine, Carries, string-put, read_line-line, receive-text, received-text,
}
use rc_project.ClientProgram.Inbox.{Message}
use rc_project.ClientProgram.Datagrams.{take-short}

-- the text of the server's answer to GETMULTICAST
abbrev pub group_text : (ip : Bytes) → Bytes
group_text ip = codes "Multicast IP " ++ ip ++ codes "\n"

scan_group_ip-answer :
    (ip : Bytes) → IsWord ip_size ip → scan_group_ip (group_text ip) ≡ ok (some ip)
unfolding scan_group_ip skip_space
scan_group_ip-answer ip hi =
    ap scan_group_ip (append_assoc (codes "Multicast IP ") ip (codes "\n"))
    ∙ rw
        (skip_space-word ip_size ip (codes "\n") hi, scan_word-word ip_size ip (codes "\n") hi refl)
        refl

group_text-starts : (ip : Bytes) → starts_with (group_text ip) (codes "Multicast IP") ≡ true
group_text-starts ip = starts_with-append (codes "Multicast IP") (b' ' ∷ ip ++ codes "\n")

-- what `sendto` sends of the array of GETMULTICAST
abbrev pub group_question : (name a : Bytes) → Bytes
group_question name a =
    take buffer_size (print_to (buffer_size + 17) (codes "GETMULTICAST " ++ name) a)

module _ (m : Machine) (p : Program) (name rest : Bytes) (hn : IsLine group_size name)
    (live : All (λ c. c ≢ 0) name) (e : p.stdin ≡ b'\n' ∷ name ++ (b'\n' ∷ rest)) (r : Reply)
    (rs : List (Option Reply)) (er : p.replies ≡ some r ∷ rs) (ip : Bytes) (hi : IsWord ip_size ip)
    (a : ℕ) (known : m.inet_pton ip ≡ some a) (joins : m.add_membership p.memberships a ≡ true)
    (carries : Carries (buffer_size + 17) (group_text ip) r.bytes) where
  abbrev pub joined : Program
  joined = record p {
    stdin = b'\n' ∷ rest;
    replies = rs;
    server_addr = r.sender;
    screen =
        p.screen
        ++ (codes "Connect to group: " ∷ [])
        ++ ((codes "Multicast IP: " ++ ip ++ codes "\n") ∷ []);
    sent =
        p.sent
        ++ (record {
          socket = server_socket;
          target = p.server_addr;
          bytes = group_question name (m.junk (buffer_size + 17));
        }
            ∷ []);
    current_group = name;
    multicast_ip = a;
    memberships = p.memberships ++ (a ∷ []);
    multicast_addr = record { s_addr = a; sin_port = htons multicast_port };
  }

  -- The user types the name of a group, and the server answers with its address: the client asks the
  -- server for the name, joins the address, prints it, and keeps it, with the name of the group, as
  -- where the messages to the group go. The name fits its array, the system knows the address and
  -- the membership succeeds.
  pub connect_multicast-joined : connect_multicast m p ≡ ok joined
  unfolding connect_multicast ask_group group_joined join skip_line
  connect_multicast-joined =
      let message =
        print_to (buffer_size + 17) (codes "GETMULTICAST " ++ name) (m.junk (buffer_size + 17)) in
      let s1 = record (print (codes "Connect to group: ") p) { stdin = name ++ (b'\n' ∷ rest) } in
      let s2 = record s1 { stdin = b'\n' ∷ rest } in
      let read = read_line-line group_size (m.junk group_size) name rest s1 refl hn in
      let (b, got, is) =
        receive-text (buffer_size + 17) message (group_text ip) r rs
          (send_to server_socket p.server_addr message s2) er carries in
      rw (e, read, string-put name (m.junk group_size) live)
        (rw (got, is, group_text-starts ip, scan_group_ip-answer ip hi) (rw (known, joins) refl))

-- a message to a group, as it is printed into an array
abbrev pub to_group : (group username line : Bytes) → Bytes
to_group group username line =
    codes "[GROUP " ++ group ++ codes "] " ++ username ++ codes " : " ++ line

module _ (m : Machine) (p : Program) (line rest : Bytes) (hl : IsLine buffer_size line)
    (live : All (λ c. c ≢ 0) line) (e : p.stdin ≡ b'\n' ∷ line ++ (b'\n' ∷ rest))
    (member : p.multicast_ip ≢ invalid_group) where
  abbrev pub group_packet : Packet
  group_packet = record {
    socket = multicast_write_socket;
    target = p.multicast_addr;
    bytes = take buffer_size (
        print_to (buffer_size + 100) (to_group p.current_group p.username line)
          (m.junk (buffer_size + 100)));
  }

  -- the client sends the line that is typed to its group
  pub send_multicast-sent :
      send_multicast m p
      ≡ ok (record p {
        stdin = b'\n' ∷ rest;
        screen = p.screen ++ ((codes "Write message [" ++ p.current_group ++ codes "]: ") ∷ []);
        sent = p.sent ++ (group_packet ∷ []);
      })
  unfolding send_multicast skip_line
  send_multicast-sent =
      let s1 = record (print (codes "Write message [" ++ p.current_group ++ codes "]: ") p) {
        stdin = line ++ (b'\n' ∷ rest);
      } in
      let in_group : (p.multicast_ip == invalid_group) ≡ false = ground arith in
      let read = read_line-line buffer_size (m.junk buffer_size) line rest s1 refl hl in
      rw (in_group, e, read, string-put line (m.junk buffer_size) live) refl

module _ (m : Machine) where
  abbrev pub group_shown : Message → Bytes
  group_shown x = codes "[Multicast] " ++ x.text ++ codes "\n"

  loop-shown :
      (xs : List Message) (buffer : Bytes) (p : Program)
      → read_multicast_loop m buffer (map (λ (x : Message). some x.reply) xs) p
        ≡ ok (record p { screen = p.screen ++ map group_shown xs })
  unfolding read_multicast_loop
  loop-shown [] buffer p = ap (λ z. ok (record p { screen = z })) (sym (append-nil p.screen))
  loop-shown (x ∷ xs) buffer p =
      let (b, got, is) = received-text buffer_size buffer x.text x.reply.bytes x.carries in
      rw (got, is)
        (loop-shown xs b (record p { screen = p.screen ++ (group_shown x ∷ []) })
          ∙ ap (λ z. ok (record p { screen = z }))
              (append_assoc p.screen (group_shown x ∷ []) (map group_shown xs)))

  pub read_multicast-shown :
      (xs : List Message) (p : Program)
      → read_multicast m true (map (λ (x : Message). some x.reply) xs) p
        ≡ ok (record p { screen = p.screen ++ map group_shown xs })
  unfolding read_multicast
  read_multicast-shown xs p = loop-shown xs (m.junk buffer_size) p

-- a text that fits is all there in what is sent of a larger array
carried :
    (text a : Bytes)
    → All (λ c. c ≢ 0) text
    → length text < buffer_size
    → Carries buffer_size text (take buffer_size (print_to (buffer_size + 100) text a))
carried text a live fits =
    let pad = take (buffer_size - length text - 1) (drop_front (length text + 1) a) in
    let whole : take buffer_size (print_to (buffer_size + 100) text a) ≡ text ++ (0 ∷ pad) =
      ap (λ z. take 1000 (put z a)) (take-le 1099 text (omega arith))
      ∙ take-string 1000 text (drop_front (length text + 1) a) fits in
    let short = take-short 1000 (print_to (buffer_size + 100) text a) in
    record { live = live; pad = pad; whole = whole; fits = short; short = short }

module _ (m m' : Machine) (p q : Program) (sender : Target) (line rest : Bytes)
    (hl : IsLine buffer_size line) (e : p.stdin ≡ b'\n' ∷ line ++ (b'\n' ∷ rest))
    (member : p.multicast_ip ≢ invalid_group) (live_group : All (λ c. c ≢ 0) p.current_group)
    (live_name : All (λ c. c ≢ 0) p.username) (live : All (λ c. c ≢ 0) line)
    (fits : length (to_group p.current_group p.username line) < buffer_size) where
  group_live : All (λ c. c ≢ 0) (to_group p.current_group p.username line)
  group_live =
      let P : ℕ → Type 0 = λ c. c ≢ 0 in
      let opened : All P (codes "[GROUP ") = (
        omega arith,
        (
          omega arith,
          (omega arith, (omega arith, (omega arith, (omega arith, (omega arith, tt))))),
        ),
      ) in
      let closed : All P (codes "] ") = (omega arith, (omega arith, tt)) in
      let colon : All P (codes " : ") = (omega arith, (omega arith, (omega arith, tt))) in
      let a = codes "[GROUP " ++ p.current_group in
      let b = a ++ codes "] " in
      let c = b ++ p.username in
      let d = c ++ codes " : " in
      let ha = All-append P (codes "[GROUP ") p.current_group opened live_group in
      let hb = All-append P a (codes "] ") ha closed in
      let hc = All-append P b p.username hb live_name in
      let hd = All-append P c (codes " : ") hc colon in All-append P d line hd live

  -- A member of a group types a line: one packet is sent, to the address of the group, and the
  -- thread for groups of any client that gets it, from whatever sender, prints the line with the
  -- name of the group and of the user. The names and the line have no NUL, and fit one datagram
  -- together.
  pub send_multicast-shown :
      Returns
        (λ p'.
          (x : Packet) × (p'.sent ≡ p.sent ++ (x ∷ []))
          × (x.target ≡ p.multicast_addr)
          × (read_multicast m' true (some (record { sender = sender; bytes = x.bytes }) ∷ []) q
              ≡ ok (record q {
                screen =
                    q.screen
                    ++ ((codes "[Multicast] "
                          ++ to_group p.current_group p.username line
                          ++ codes "\n")
                        ∷ []);
              })))
        (send_multicast m p)
  send_multicast-shown =
      let x = group_packet m p line rest hl live e member in
      let reply : Reply = record { sender = sender; bytes = x.bytes } in
      let text = to_group p.current_group p.username line in
      let message : Message = record {
        reply = reply;
        text = text;
        carries = carried text (m.junk (buffer_size + 100)) group_live fits;
      } in
      rw (send_multicast-sent m p line rest hl live e member)
        (x, refl, refl, read_multicast-shown m' (message ∷ []) q)
