-- ===== src/ClientProgram/Menu.antt =====
-- code/client/src/main.c: the login and the menu. The loop of the menu has fuel.
use rc_project.Base.{
  ℕ, zero, suc, true, List, [], ◌∷◌, ◌++◌, none, some, if◌then◌else◌, ℤ, pos, negsuc, Run, ok,
  fault, exited, unfinished, is_nonzero, length, ◌>>=◌,
}
use rc_project.Text.{Bytes, codes, strcmp}
use rc_project.Text.Scan.{scan_int}
use rc_project.ClientProgram.{
  buffer_size, username_size, password_size, Machine, Program, server_socket, print, string,
  print_to, next_line, read_word, read_int, send_to, receive,
}
use rc_project.ClientProgram.Actions.{
  send_msg, send_p2p, create_group_multicast, connect_multicast, send_multicast,
}

abbrev pub menu : Bytes
menu =
    codes
      "Menu:\n\t1 - Send message via Server\n\t2 - Send message via P2P\n\t3 - Create multicast group\n\t4 - Connect to multicast group\n\t5 - Send message to multicast group\n\t0 - Exit\nChoose an option:\n"

module _ (m : Machine) where
  -- the switch
  unfoldable pub choose : ℤ → Program → Run Program
  choose (pos zero) p = ok (print (codes "Leaving\n") p)
  choose (pos (suc zero)) p = send_msg m p
  choose (pos (suc (suc zero))) p = send_p2p m p
  choose (pos (suc (suc (suc zero)))) p = create_group_multicast m p
  choose (pos (suc (suc (suc (suc zero))))) p = connect_multicast m p
  choose (pos (suc (suc (suc (suc (suc zero)))))) p = send_multicast m p
  choose (pos (suc (suc (suc (suc (suc (suc n))))))) p = ok (print (codes "Option not found\n") p)
  choose (negsuc n) p = ok (print (codes "Option not found\n") p)

  -- one round of the loop, with the option of the round before
  unfoldable pub menu_round : ℤ → Program → Run (ℤ × Program)
  menu_round option p = do
    p1 ← next_line (print menu p)
    (option', p2) ← read_int option p1
    p3 ← choose option' p2
    ok (option', p3)

  unfoldable pub options_loop : (fuel : ℕ) → ℤ → Program → Run Program
  options_loop zero option p = fault unfinished
  options_loop (suc fuel) option p = do
    (option', p1) ← menu_round option p
    let rest = options_loop fuel option' p1
    if is_nonzero option' then rest else ok p1

  -- every round reads a line
  unfoldable pub options : Program → Run Program
  options p = options_loop (suc (length p.stdin)) m.junk_int p

  -- the part of `authenticate` after the answer that the login succeeded, which is in `a`
  unfoldable pub after_login : List ℕ → Program → Run Program
  after_login a p = do
    (got, p1) ← receive buffer_size a p
    elim got [
      | none ↦ fault exited
      | some b ↦ (do
        text ← string b
        res ← scan_int text
        elim res [
          | none ↦ fault exited
          | some (message_port, _) ↦ (do
            (got', p2) ←
                receive buffer_size b
                  (record p1 { message_port = message_port; message_thread = true })
            elim got' [
              | none ↦ fault exited
              | some c ↦ (do permissions ← string c; options (print permissions p2))
            ])
        ])
    ]

  unfoldable pub authenticate : Program → Run Program
  authenticate p = do
    (a, p1) ←
        read_word username_size (p.username ++ (0 ∷ []))
          (print (codes "Username: ") (print (codes "Login menu:\n") p))
    username ← string a
    (b, p2) ←
        read_word password_size (p1.password ++ (0 ∷ []))
          (print (codes "Password: ") (record p1 { username = username }))
    password ← string b
    let text = codes "LOGIN " ++ username ++ codes " " ++ password
    let message = print_to buffer_size text (m.junk buffer_size)
    (got, p3) ←
        receive buffer_size message
          (send_to server_socket p2.server_addr message (record p2 { password = password }))
    elim got [
      | none ↦ fault exited
      | some c ↦ (do
        answer ← string c
        if is_nonzero (strcmp answer (codes "Login successfully\n"))
            then ok (print answer p3)
            else after_login c (print answer p3))
    ]
