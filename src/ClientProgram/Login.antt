-- ===== src/ClientProgram/Login.antt =====
-- The login of the client, with the answers of the server.
use rc_project.Base.{
  ◌^◌, ◌<◌, ◌≡◌, refl, ◌∙◌, ℕ, List, [], ◌∷◌, ◌++◌, Option, some, true, ok, pos, is_nonzero,
  if◌then◌else◌,
}
use rc_project.Text.{Bytes, codes, strcmp}
use rc_project.Text.Decimal.{print_int}
use rc_project.Text.Decimal.RoundTrip.{scan_int-print_int}
use rc_project.Text.Scan.Words.{IsWord}
use rc_project.ClientProgram.{
  buffer_size, username_size, password_size, Machine, Program, Reply, server_socket, print,
  print_to, send_to,
}
use rc_project.ClientProgram.Menu.{options, after_login, authenticate}
use rc_project.ClientProgram.Reads.{
  Carries, IsWord-live, string-put, read_word-word, read_word-newline, receive-text,
}

module _ (m : Machine) (p : Program) (username password rest : Bytes)
    (hu : IsWord username_size username) (hp : IsWord password_size password)
    (e : p.stdin ≡ username ++ (b'\n' ∷ password ++ (b'\n' ∷ rest))) where
  -- the array of the message, with the text of LOGIN
  abbrev message : Bytes
  message =
      print_to buffer_size (codes "LOGIN " ++ username ++ codes " " ++ password)
        (m.junk buffer_size)

  -- the state in which the answer is awaited
  abbrev pub login_sent : Program
  login_sent = send_to server_socket p.server_addr message (record p {
    stdin = b'\n' ∷ rest;
    username = username;
    password = password;
    screen =
        p.screen
        ++ (codes "Login menu:\n" ∷ [])
        ++ (codes "Username: " ∷ [])
        ++ (codes "Password: " ∷ []);
  })

  module _ (r : Reply) (rs : List (Option Reply)) (text : Bytes) (er : p.replies ≡ some r ∷ rs)
      (carries : Carries buffer_size text r.bytes) where
    answered :
        (b : Bytes) × (authenticate m p ≡ (
          if is_nonzero (strcmp text (codes "Login successfully\n"))
          then ok (print text (record login_sent { replies = rs; server_addr = r.sender }))
          else after_login m b
              (print text (record login_sent { replies = rs; server_addr = r.sender }))))
    unfolding authenticate
    answered =
        let s0 = print (codes "Username: ") (print (codes "Login menu:\n") p) in
        let s1 = record s0 { stdin = b'\n' ∷ password ++ (b'\n' ∷ rest) } in
        let s2 = print (codes "Password: ") (record s1 { username = username }) in
        let name =
          read_word-word username_size (p.username ++ (0 ∷ [])) username
            (b'\n' ∷ password ++ (b'\n' ∷ rest)) s0 e hu refl in
        let word =
          read_word-newline password_size (p.password ++ (0 ∷ [])) password (b'\n' ∷ rest) s2 refl
            hp refl in
        let (b, got, is) = receive-text buffer_size message text r rs login_sent er carries in
        (
          b,
          rw
              (
                name,
                string-put username (p.username ++ (0 ∷ []))
                    (IsWord-live username_size username hu),
              )
              (rw
                (
                  word,
                  string-put password (p.password ++ (0 ∷ []))
                      (IsWord-live password_size password hp),
                )
                (rw (got, is) refl)),
        )

    -- A name and a password that fit their arrays are sent in a LOGIN, and an answer other than that
    -- the login succeeded is printed and ends the client.
    pub authenticate-refused :
        is_nonzero (strcmp text (codes "Login successfully\n")) ≡ true
        → authenticate m p
          ≡ ok (print text (record login_sent { replies = rs; server_addr = r.sender }))
    authenticate-refused other = answered.1 ∙ rw other refl

  module _ (r1 r2 r3 : Reply) (rs : List (Option Reply)) (port : ℕ) (permissions : Bytes)
      (er : p.replies ≡ some r1 ∷ some r2 ∷ some r3 ∷ rs) (small : port < 2 ^ 31)
      (c1 : Carries buffer_size (codes "Login successfully\n") r1.bytes)
      (c2 : Carries buffer_size (print_int (pos port) ++ codes "\n") r2.bytes)
      (c3 : Carries buffer_size permissions r3.bytes) where
    -- A name and a password that fit their arrays are sent in a LOGIN. If the server answers as it
    -- does to a login that succeeds, with three messages, the client takes the port from the second
    -- one, starts the thread for messages, prints the first and the third one and goes on to the menu.
    pub authenticate-admitted :
        authenticate m p
        ≡ options m (record login_sent {
          replies = rs;
          server_addr = r3.sender;
          message_port = pos port;
          message_thread = true;
          screen = login_sent.screen ++ (codes "Login successfully\n" ∷ []) ++ (permissions ∷ []);
        })
    unfolding after_login strcmp
    authenticate-admitted =
        let (b, first) =
          answered r1 (some r2 ∷ some r3 ∷ rs) (codes "Login successfully\n") er c1 in
        let s1 =
          print (codes "Login successfully\n")
            (record login_sent { replies = some r2 ∷ some r3 ∷ rs; server_addr = r1.sender }) in
        let (b2, got2, is2) = receive-text buffer_size b _ r2 (some r3 ∷ rs) s1 refl c2 in
        let s2 = record s1 {
          replies = some r3 ∷ rs;
          server_addr = r2.sender;
          message_port = pos port;
          message_thread = true;
        } in
        let (b3, got3, is3) = receive-text buffer_size b2 permissions r3 rs s2 refl c3 in
        first
        ∙ rw (got2, is2, scan_int-print_int port (codes "\n") small refl) (rw (got3, is3) refl)
