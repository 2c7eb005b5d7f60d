-- ===== src/Server/Commands/Table.antt =====
-- The table of the commands and client_cmd_function of client/commands/client_commands.c.
use rc_project.Base.{Bool, true, false, List, [], ◌∷◌, some, ◌==◌, if◌then◌else◌, Run, ok, ◌>>=◌}
use rc_project.Memory.{Ptr, load}
use rc_project.Text.{Bytes, codes, remove_end_line, strtok_r, parse_cmd}
use rc_project.Server.{Server}
use rc_project.Server.Commands.{cmd_login, cmd_msg, cmd_p2p}
use rc_project.Server.Commands.Multicast.{cmd_createmulticast, cmd_getmulticast}

pub data ClientCommand : Type 0 where
  login msg p2p createmulticast getmulticast : ClientCommand

-- `client_commands` beside `client_cmd_functions`
abbrev pub client_commands : List (Bytes × ClientCommand)
client_commands =
    (codes "LOGIN", login)
    ∷ (codes "MSG", msg)
    ∷ (codes "P2P", p2p)
    ∷ (codes "CREATEMULTICAST", createmulticast)
    ∷ (codes "GETMULTICAST", getmulticast)
    ∷ []

unfoldable pub client_cmd_functions : ClientCommand → Ptr → Bytes → Server → Run Server
client_cmd_functions login = cmd_login
client_cmd_functions msg = cmd_msg
client_cmd_functions p2p = cmd_p2p
client_cmd_functions createmulticast = cmd_createmulticast
client_cmd_functions getmulticast = cmd_getmulticast

-- the loop over the table; `false` if no entry matches
unfoldable pub dispatch :
    List (Bytes × ClientCommand) → (command : Bytes) → Ptr → Bytes → Server → Run (Bool × Server)
dispatch [] command p args s = ok (false, s)
dispatch ((name, f) ∷ rest) command p args s =
    let next = dispatch rest command p args s in
    if parse_cmd (some command) name
    then (do s' ← client_cmd_functions f p args s; ok (true, s'))
    else next

unfoldable pub client_cmd_function : Ptr → Bytes → Server → Run (Bool × Server)
unfolding dispatch remove_end_line strtok_r
client_cmd_function p buffer s = do
  let (command, args) = strtok_r (remove_end_line buffer)
  client ← load p s.sessions
  s' ← if client.client == 0 then ok s else (do c ← load client.client s.clients; ok s)
  dispatch client_commands command p args s'
