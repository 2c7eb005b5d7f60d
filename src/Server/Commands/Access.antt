-- ===== src/Server/Commands/Access.antt =====
-- Who may run the commands of client_commands.c, and which of them a datagram runs.
use rc_project.Base.{◌≡◌, ◌≢◌, refl, some, pos, ok, true, false, Bool-cases, inl, inr, ◌>>=◌, ℤ}
use rc_project.Memory.{Ptr, load-ok}
use rc_project.Text.{Bytes, codes, strcmp, parse_cmd}
use rc_project.Text.Compare.{parse_cmd-eq}
use rc_project.Server.{Server, Client, send_udp_message, max_group_name}
use rc_project.Server.Commands.{cmd_msg, cmd_p2p, reply, scan_name}
use rc_project.Server.Commands.Multicast.{cmd_createmulticast, cmd_getmulticast}
use rc_project.Server.Commands.Table.{
  ClientCommand, login, msg, p2p, createmulticast, getmulticast, client_cmd_functions, dispatch,
  client_commands,
}

pub reply-ok :
    (p : Ptr) (text : Bytes) (s : Server)
    → s.sessions.live p ≡ true
    → reply p text s ≡ ok (send_udp_message (s.sessions.cell p) text s)
reply-ok p text s l = rw (load-ok p s.sessions l)

-- the permission that a command asks for
abbrev pub permission : ClientCommand → Client → ℤ
permission login c = pos 1
permission msg c = c.client_server
permission p2p c = c.p2p
permission createmulticast c = c.group
permission getmulticast c = c.group

-- the group commands read their argument before they look at the permission
abbrev pub IsReadable : ClientCommand → Bytes → Type 0
IsReadable login args = Unit
IsReadable msg args = Unit
IsReadable p2p args = Unit
IsReadable createmulticast args = (name : Bytes) × (scan_name max_group_name args ≡ ok (some name))
IsReadable getmulticast args = (name : Bytes) × (scan_name max_group_name args ≡ ok (some name))

module _ (p : Ptr) (args : Bytes) (s : Server) (live : s.sessions.live p ≡ true) where
  -- A session that is not logged in gets the same answer to every command but LOGIN, and nothing
  -- else happens.
  pub client_cmd_functions-not_logged_in :
      (c : ClientCommand)
      → c ≢ login
      → (s.sessions.cell p).logged_in ≡ false
      → client_cmd_functions c p args s
        ≡ ok (
            send_udp_message
              (s.sessions.cell p)
              (codes "You need to be logged in to perform this command\n")
              s)
  unfolding client_cmd_functions cmd_msg cmd_p2p cmd_createmulticast cmd_getmulticast
  client_cmd_functions-not_logged_in login ne out = absurd (ne refl)
  client_cmd_functions-not_logged_in msg ne out = rw (load-ok p s.sessions live, out)
  client_cmd_functions-not_logged_in p2p ne out = rw (load-ok p s.sessions live, out)
  client_cmd_functions-not_logged_in createmulticast ne out = rw (load-ok p s.sessions live, out)
  client_cmd_functions-not_logged_in getmulticast ne out = rw (load-ok p s.sessions live, out)

  -- A session that is logged in to an account without the permission that the command asks for gets
  -- the same answer whichever the command, LOGIN excepted, and nothing else happens. The group
  -- commands give it where their argument can be read.
  pub client_cmd_functions-no_permission :
      (c : ClientCommand)
      → c ≢ login
      → (s.sessions.cell p).logged_in ≡ true
      → s.clients.live (s.sessions.cell p).client ≡ true
      → permission c (s.clients.cell (s.sessions.cell p).client) ≡ pos 0
      → IsReadable c args
      → client_cmd_functions c p args s
        ≡ ok (
            send_udp_message
              (s.sessions.cell p)
              (codes "You do not have permission to use this command\n")
              s)
  unfolding client_cmd_functions cmd_msg cmd_p2p cmd_createmulticast cmd_getmulticast
  client_cmd_functions-no_permission login ne on there without r = absurd (ne refl)
  client_cmd_functions-no_permission msg ne on there without r =
      rw
        (load-ok p s.sessions live, on, load-ok (s.sessions.cell p).client s.clients there, without)
  client_cmd_functions-no_permission p2p ne on there without r =
      rw
        (load-ok p s.sessions live, on, load-ok (s.sessions.cell p).client s.clients there, without)
  client_cmd_functions-no_permission createmulticast ne on there without (name, e) = simp (
    load-ok p s.sessions live,
    on,
    e,
    load-ok (s.sessions.cell p).client s.clients there,
    without,
  )
  client_cmd_functions-no_permission getmulticast ne on there without (name, e) = simp (
    load-ok p s.sessions live,
    on,
    e,
    load-ok (s.sessions.cell p).client s.clients there,
    without,
  )

abbrev pub command_name : ClientCommand → Bytes
command_name login = codes "LOGIN"
command_name msg = codes "MSG"
command_name p2p = codes "P2P"
command_name createmulticast = codes "CREATEMULTICAST"
command_name getmulticast = codes "GETMULTICAST"

-- The table runs the command whose name the word is, with the arguments.
pub dispatch-known :
    (c : ClientCommand) (p : Ptr) (args : Bytes) (s : Server)
    → dispatch client_commands (command_name c) p args s
      ≡ (do s' ← client_cmd_functions c p args s; ok (true, s'))
unfolding dispatch parse_cmd strcmp
dispatch-known login p args s = refl
dispatch-known msg p args s = refl
dispatch-known p2p p args s = refl
dispatch-known createmulticast p args s = refl
dispatch-known getmulticast p args s = refl

parse_cmd-ne : (a b : Bytes) → a ≢ b → parse_cmd (some a) b ≡ false
parse_cmd-ne a b ne = elim (Bool-cases (parse_cmd (some a) b)) [
  | inl e ↦ absurd (ne (parse_cmd-eq a b e))
  | inr e ↦ e
]

-- A word that is the name of no command runs none, and nothing happens.
pub dispatch-unknown :
    (word : Bytes) (p : Ptr) (args : Bytes) (s : Server)
    → ((c : ClientCommand) → word ≢ command_name c)
    → dispatch client_commands word p args s ≡ ok (false, s)
dispatch-unknown word p args s ne =
    unfold dispatch in
    rw (
      parse_cmd-ne word (command_name login) (ne login),
      parse_cmd-ne word (command_name msg) (ne msg),
      parse_cmd-ne word (command_name p2p) (ne p2p),
      parse_cmd-ne word (command_name createmulticast) (ne createmulticast),
      parse_cmd-ne word (command_name getmulticast) (ne getmulticast),
    )
