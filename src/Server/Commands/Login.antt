-- ===== src/Server/Commands/Login.antt =====
-- LOGIN of client_commands.c.
use mathlib.Core.Bool.{false≢true}
use rc_project.Base.{
  ◌⊎◌, Bool-cases, inl, inr, ◌≡◌, refl, sym, arith, ◌++◌, Option, none, some, pos, ok, ℤ,
  if◌then◌else◌, true, false, Bool, not, ◌&&◌, is_nonzero,
}
use rc_project.Memory.{Ptr, load-ok, store, update}
use rc_project.Text.{Bytes, codes, strcmp}
use rc_project.Text.Decimal.{print_int}
use rc_project.Server.{Server, Client, Session, send_udp_message}
use rc_project.Server.Commands.{login_found, login_success, answer}

-- the third message of a login
abbrev pub permissions : Bytes → Bytes → Bytes → Bytes
permissions a b d =
    codes "Current account permissions:\n\tClient-Server: "
    ++ a
    ++ codes "\n\tP2P: "
    ++ b
    ++ codes "\n\tGroup: "
    ++ d
    ++ codes "\n"

-- the answer to a login that is refused, by the account with the name if there is one
abbrev pub refusal : Option Client → Session → Bytes
refusal none session = codes "User not found\n"
refusal (some c) session =
    if is_nonzero (strcmp session.ip c.ip)
    then codes "You cannot login to this user account. (DIFFERENT IP)\n"
    else codes "Wrong password\n"

-- whether the session's address and the password are those of the account
abbrev pub is_admitted : Option Client → Session → Bytes → Bool
is_admitted none session password = false
is_admitted (some c) session password =
    not (is_nonzero (strcmp session.ip c.ip)) && not (is_nonzero (strcmp c.password password))

module _ (p q : Ptr) (password : Bytes) (s : Server) (live : s.sessions.live p ≡ true)
    (block : s.clients.live q ≡ true) where
  pub login_found-refused :
      is_admitted (some (s.clients.cell q)) (s.sessions.cell p) password ≡ false
      → login_found p q password s
        ≡ ok (
            send_udp_message
              (s.sessions.cell p)
              (refusal (some (s.clients.cell q)) (s.sessions.cell p))
              s)
  unfolding login_found
  login_found-refused refused =
      rw (load-ok p s.sessions live, load-ok q s.clients block)
        (elim (Bool-cases (is_nonzero (strcmp (s.sessions.cell p).ip (s.clients.cell q).ip))) [
          | inl other ↦ rw other
          | inr same ↦
              rw same
                (elim (Bool-cases (is_nonzero (strcmp (s.clients.cell q).password password))) [
                  | inl wrong ↦ rw wrong
                  | inr right ↦ absurd (false≢true (sym (rw (same, right) at refused)))
                ])
        ])

  -- the records of the account and of the session after a login
  abbrev pub account_after : Client
  account_after = record (s.clients.cell q) {
    port = (s.sessions.cell p).port;
    ip = (s.sessions.cell p).ip;
  }

  abbrev pub session_after : Session
  session_after = record (s.sessions.cell p) { client = q; logged_in = true }

  abbrev pub after_login : Server
  after_login = record s {
    clients = store q account_after s.clients;
    sessions = store p session_after s.sessions;
  }

  abbrev pub greeting : Server
  greeting =
      send_udp_message session_after (print_int (s.sessions.cell p).port ++ codes "\n")
        (send_udp_message session_after (codes "Login successfully\n") after_login)

  stored-cell : update s.sessions.cell p session_after p ≡ session_after
  stored-cell = ground arith

  pub tests :
      is_admitted (some (s.clients.cell q)) (s.sessions.cell p) password ≡ true
      → (is_nonzero (strcmp (s.sessions.cell p).ip (s.clients.cell q).ip) ≡ false)
        × (is_nonzero (strcmp (s.clients.cell q).password password) ≡ false)
  tests admitted = ground arith

  pub login_found-admitted :
      (a b d : Bytes)
      → is_admitted (some (s.clients.cell q)) (s.sessions.cell p) password ≡ true
      → answer (s.clients.cell q).client_server ≡ ok a
      → answer (s.clients.cell q).p2p ≡ ok b
      → answer (s.clients.cell q).group ≡ ok d
      → login_found p q password s
        ≡ ok (send_udp_message session_after (permissions a b d) greeting)
  unfolding login_found login_success send_udp_message
  login_found-admitted a b d admitted ea eb ed =
      let (same, right) = tests admitted in
      simp
        (
          load-ok p s.sessions live,
          load-ok q s.clients block,
          same,
          right,
          load-ok p after_login.sessions live,
          stored-cell,
          ea,
          eb,
          ed,
        )
        refl

-- a flag of an account that the table of answers has an entry for
abbrev pub IsFlag : ℤ → Type 0
IsFlag n = (n ≡ pos 0) ⊎ (n ≡ pos 1)

pub answer-ok : (n : ℤ) → IsFlag n → (text : Bytes) × (answer n ≡ ok text)
answer-ok n (inl e) = (codes "NO", unfold answer in rw e refl)
answer-ok n (inr e) = (codes "YES", unfold answer in rw e refl)
