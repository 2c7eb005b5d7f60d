-- ===== src/ClientProgram/Rounds.antt =====
-- How much of the terminal the rounds of the menu read, and the fuel of its loop.
use rc_project.Base.{
  ◌<◌, ◌≤◌, ◌≡◌, ◌≢◌, arith, ℕ, zero, suc, Option, none, some, inl, inr, ok, Run, ◌>>=◌, fault,
  exited, unfinished, length, pos, negsuc, ℤ, ◌==◌, is_nonzero, not, Bool-cases,
}
use rc_project.Text.{Bytes, codes, starts_with}
use rc_project.ClientProgram.{
  invalid_group, Machine, Program, string, print, next_line, read_word, read_line, read_int,
  receive,
}
use rc_project.ClientProgram.Actions.{
  send_msg, send_p2p, send_p2p_message, response_or_junk, create_group_multicast, connect_multicast,
  send_multicast, ask_group, group_joined, join, scan_address, scan_group_ip,
}
use rc_project.ClientProgram.Menu.{menu, choose, menu_round, options_loop, options}
use rc_project.ClientProgram.Ends.{
  Ends, Ends-bind, Ends-if, Ends-imp, Ends-option, any, Less, le_self, read_word-Ends,
  read_line-Ends, next_line-Ends, string-Ends, receive-Ends, read_int-Ends, scan_address-Ends,
  scan_group_ip-Ends,
}

Ends-finished {ℓ} : {A : Type ℓ} (r : Run A) → Ends (λ a. Unit {0}) r → r ≢ fault unfinished
Ends-finished (ok a) h e = cc
Ends-finished (fault f) h e = h (cc)

module _ (m : Machine) where
  -- an entry of the menu leaves not more to read than there was
  abbrev Kept : Program → Program → Type 0
  Kept p p' = length p'.stdin ≤ length p.stdin

  abbrev Acts : Program → Run Program → Type 0
  Acts p r = Ends (Kept p) r

  printed :
      (c : Bytes) (p p1 : Program)
      → length p1.stdin ≤ length p.stdin
      → Acts p (do text ← string c; ok (print text p1))
  printed c p p1 h = Ends-bind _ (Kept p) (string c) _ (string-Ends c) (λ text h'. h)

  send_msg-Acts : (p : Program) → Acts p (send_msg m p)
  unfolding send_msg
  send_msg-Acts p = Ends-bind _ (Kept p) (read_word _ _ _) _ (read_word-Ends _ _ _) (λ (a, p1) h1.
      Ends-bind _ (Kept p) (string a) _ (string-Ends a) (λ username h2.
        Ends-bind _ (Kept p) (next_line p1) _ (next_line-Ends p1) (λ p2 h3.
          Ends-bind _ (Kept p) (read_line _ _ _) _ (read_line-Ends _ _ _) (λ (b, p3) h4.
            Ends-bind _ (Kept p) (string b) _ (string-Ends b) (λ message h5.
              Ends-bind (Less p3) (Kept p) (receive _ _ _) _ (receive-Ends _ _ _) (λ (got, p4) h6.
                Ends-option (λ c. Unit {0}) (Kept p) got (fault exited) _ (any got)
                  (λ (e : exited ≡ unfinished). cc) (λ c h7. printed c p p4 (omega arith))))))))

  send_p2p_message-Acts :
      (res : Option (Bytes × Bytes × ℤ)) (p : Program) → Acts p (send_p2p_message m res p)
  unfolding send_p2p_message
  send_p2p_message-Acts none p = le_self p
  send_p2p_message-Acts (some (username, ip, port)) p =
      Ends-bind _ (Kept p) (next_line p) _ (next_line-Ends p) (λ p1 h1.
        Ends-bind (Less p1) (Kept p) (read_line _ _ _) _ (read_line-Ends _ _ _)
          (λ (message, p2) h2. omega arith))

  responded :
      (got : Option Bytes) (p p1 : Program)
      → length p.stdin ≤ length p1.stdin
      → length (response_or_junk m got p).1.stdin ≤ length p1.stdin
  responded none p p1 h = h
  responded (some c) p p1 h = h

  send_p2p-Acts : (p : Program) → Acts p (send_p2p m p)
  unfolding send_p2p
  send_p2p-Acts p =
      Ends-bind (Less p) (Kept p) (read_word _ _ _) _ (read_word-Ends _ _ _) (λ (a, p1) h1.
        Ends-bind _ (Kept p) (string a) _ (string-Ends a) (λ username h2.
          Ends-bind (Less p1) (Kept p) (receive _ _ _) _ (receive-Ends _ _ _) (λ (got, p2) h3.
            let h4 = responded got p2 p1 h3 in
            Ends-bind _ (Kept p) (string (response_or_junk m got p2).0) _ (string-Ends _)
              (λ text h5.
                Ends-bind _ (Kept p) (scan_address text) _ (scan_address-Ends text) (λ res h6.
                  Ends-imp {Q = Kept p} (λ p' h7. omega arith)
                    (send_p2p_message m res (response_or_junk m got p2).1)
                    (send_p2p_message-Acts res (response_or_junk m got p2).1))))))

  ask_group-Acts :
      (prompt command : Bytes) (p : Program)
      → Ends (λ (name, got, p'). length p'.stdin ≤ length p.stdin) (ask_group m prompt command p)
  unfolding ask_group
  ask_group-Acts prompt command p =
      Ends-bind _ (λ (x : Bytes × Option Bytes × Program). length x.2.stdin ≤ length p.stdin)
        (next_line (print prompt p)) _ (next_line-Ends (print prompt p))
        (λ p1 h1.
          Ends-bind (Less p1)
            (λ (x : Bytes × Option Bytes × Program). length x.2.stdin ≤ length p.stdin)
            (read_line _ _ _) _ (read_line-Ends _ _ _)
            (λ (a, p2) h2.
              Ends-bind _
                (λ (x : Bytes × Option Bytes × Program). length x.2.stdin ≤ length p.stdin)
                (string a) _ (string-Ends a)
                (λ name h3.
                  Ends-bind (Less p2)
                    (λ (x : Bytes × Option Bytes × Program). length x.2.stdin ≤ length p.stdin)
                    (receive _ _ _) _ (receive-Ends _ _ _) (λ (got, p3) h4. omega arith))))

  create_group_multicast-Acts : (p : Program) → Acts p (create_group_multicast m p)
  unfolding create_group_multicast
  create_group_multicast-Acts p =
      Ends-bind _ (Kept p) (ask_group m _ _ p) _ (ask_group-Acts _ _ p) (λ (name, got, p1) h1.
        Ends-option (λ c. Unit {0}) (Kept p) got _ _ (any got) h1 (λ c h2. printed c p p1 h1))

  join-stdin :
      (name ip : Bytes) (p p1 : Program)
      → length p1.stdin ≤ length p.stdin
      → length (join m name ip p1).stdin ≤ length p.stdin
  unfolding join
  join-stdin name ip p p1 h =
      elim (Bool-cases (
        m.add_membership p1.memberships
          (elim (m.inet_pton ip) [ none ↦ p1.multicast_ip | some a ↦ a ]))) [
            | inl e ↦ rw e h
            | inr e ↦ rw e h
          ]

  group_joined-Acts :
      (name text : Bytes) (p p1 : Program)
      → length p1.stdin ≤ length p.stdin
      → Acts p (group_joined m name text p1)
  unfolding group_joined
  group_joined-Acts name text p p1 h =
      Ends-if (Kept p) (not (starts_with text (codes "Multicast IP"))) _ _ h (
        Ends-bind _ (Kept p) (scan_group_ip text) _ (scan_group_ip-Ends text) (λ res h1.
          Ends-option (λ c. Unit {0}) (Kept p) res _ _ (any res) h
            (λ ip h2. join-stdin name ip p p1 h)))

  connect_multicast-Acts : (p : Program) → Acts p (connect_multicast m p)
  unfolding connect_multicast
  connect_multicast-Acts p =
      Ends-bind _ (Kept p) (ask_group m _ _ p) _ (ask_group-Acts _ _ p) (λ (name, got, p1) h1.
        Ends-option (λ c. Unit {0}) (Kept p) got _ _ (any got) h1
          (λ c h2.
            Ends-bind _ (Kept p) (string c) _ (string-Ends c)
              (λ text h3. group_joined-Acts name text p p1 h1)))

  send_multicast-Acts : (p : Program) → Acts p (send_multicast m p)
  unfolding send_multicast
  send_multicast-Acts p = Ends-if (Kept p) (p.multicast_ip == invalid_group) _ _ (le_self p) (
      Ends-bind (λ p1. length p1.stdin < length p.stdin) (Kept p) (next_line _) _ (next_line-Ends _)
        (λ p1 h1.
          Ends-bind (Less p1) (Kept p) (read_line _ _ _) _ (read_line-Ends _ _ _) (λ (a, p2) h2.
            Ends-bind _ (Kept p) (string a) _ (string-Ends a) (λ message h3. omega arith))))

  choose-Acts : (option : ℤ) (p : Program) → Acts p (choose m option p)
  unfolding choose
  choose-Acts (pos zero) p = le_self p
  choose-Acts (pos (suc zero)) p = send_msg-Acts p
  choose-Acts (pos (suc (suc zero))) p = send_p2p-Acts p
  choose-Acts (pos (suc (suc (suc zero)))) p = create_group_multicast-Acts p
  choose-Acts (pos (suc (suc (suc (suc zero))))) p = connect_multicast-Acts p
  choose-Acts (pos (suc (suc (suc (suc (suc zero)))))) p = send_multicast-Acts p
  choose-Acts (pos (suc (suc (suc (suc (suc (suc n))))))) p = le_self p
  choose-Acts (negsuc n) p = le_self p

  menu_round-Ends :
      (option : ℤ) (p : Program)
      → Ends (λ (o, p'). length p'.stdin < length p.stdin) (menu_round m option p)
  unfolding menu_round
  menu_round-Ends option p =
      Ends-bind _ (λ (x : ℤ × Program). length x.1.stdin < length p.stdin)
        (next_line (print menu p)) _ (next_line-Ends (print menu p))
        (λ p1 h1.
          Ends-bind (Less p1) (λ (x : ℤ × Program). length x.1.stdin < length p.stdin)
            (read_int option p1) _ (read_int-Ends option p1)
            (λ (o, p2) h2.
              Ends-bind _ (λ (x : ℤ × Program). length x.1.stdin < length p.stdin) (choose m o p2) _
                (choose-Acts o p2) (λ p3 h3. omega arith)))

  options_loop-Ends :
      (fuel : ℕ) (option : ℤ) (p : Program)
      → length p.stdin < fuel
      → Ends (λ p'. Unit {0}) (options_loop m fuel option p)
  unfolding options_loop
  options_loop-Ends zero option p h = absurd (omega arith)
  options_loop-Ends (suc fuel) option p h =
      Ends-bind _ (λ p'. Unit {0}) (menu_round m option p) _ (menu_round-Ends option p)
        (λ (o, p1) h1.
          Ends-if (λ p'. Unit {0}) (is_nonzero o) _ _ (options_loop-Ends fuel o p1 (omega arith))
            tt)

  -- The menu never ends for want of the fuel that the model gives it, which is one round more than
  -- there are bytes to read: every round reads at least the end of a line, whatever the option,
  -- the words and the answers of the server are. Where the code itself does not end, as at the end
  -- of the input, the model has `hung`.
  pub options-finishes : (p : Program) → options m p ≢ fault unfinished
  unfolding options
  options-finishes p =
      Ends-finished (options m p)
        (options_loop-Ends (suc (length p.stdin)) m.junk_int p (omega arith))
