-- ===== src/Server/Commands/Multicast.antt =====
-- cmd_createmulticast and cmd_getmulticast of client/commands/client_commands.c.
use rc_project.Base.{
  ◌+◌, true, false, [], ◌++◌, Option, none, some, ltb, get_elem?, if◌then◌else◌, is_nonzero, not,
  Run, fault, bad_index, ◌>>=◌,
}
use rc_project.Memory.{Ptr, free, load, store}
use rc_project.Text.{Bytes, codes}
use rc_project.Avl.Handle.{avl_get, avl_add}
use rc_project.Server.{Server, groups, max_groups, group_cmp, new_group, max_group_name}
use rc_project.Server.Commands.{reply, scan_name}

-- the branch with a name that is not taken
unfoldable pub create_group : Ptr → (group : Ptr) → (group_name : Bytes) → Server → Run Server
create_group p group group_name s =
    if ltb s.current_group max_groups
    then elim (get_elem? groups s.current_group) [
      | none ↦ fault bad_index
      | some ip ↦ (do
        g ← load group s.group_heap
        let h = store group (record g { ip = ip }) s.group_heap
        (_, h', tree) ← avl_add group_cmp h s.group_list group true false
        reply p (codes "Group " ++ group_name ++ codes " Multicast ip: " ++ ip ++ codes "\n")
            (record s { current_group = s.current_group + 1; group_heap = h'; group_list = tree }))
    ]
    else reply p (codes "Cannot create more groups\n")
        (record s { group_heap = free group s.group_heap })

-- the part of `cmd_createmulticast` that looks the name up
unfoldable pub create_new_group : Ptr → Ptr → Bytes → Server → Run Server
create_new_group p group group_name s = do
  found ← avl_get group_cmp s.group_heap s.group_list group
  elim found [
    | some temp_group ↦ reply p (codes "Duplicated group name\n") s
    | none ↦ create_group p group group_name s
  ]

unfoldable pub cmd_createmulticast : Ptr → Bytes → Server → Run Server
cmd_createmulticast p args s = do
  client ← load p s.sessions
  if not client.logged_in
      then reply p (codes "You need to be logged in to perform this command\n") s
      else (do
        words ← scan_name max_group_name args
        elim words [
          | none ↦ reply p (codes "Invalid usage! Use: CREATEMULTICAST <GROUP-ID>\n") s
          | some group_name ↦ (do
            c ← load client.client s.clients
            if not (is_nonzero c.group)
                then reply p (codes "You do not have permission to use this command\n") s
                else (do
                  (group, h) ← new_group group_name [] s.group_heap
                  create_new_group p group group_name (record s { group_heap = h })))
        ])

-- the end of `cmd_getmulticast`, with what the search returns
unfoldable pub answer_group : Ptr → Option Ptr → Server → Run Server
answer_group p none s = reply p (codes "Group not found\n") s
answer_group p (some temp_group) s = do
  g ← load temp_group s.group_heap
  reply p (codes "Multicast IP " ++ g.ip ++ codes "\n") s

unfoldable pub cmd_getmulticast : Ptr → Bytes → Server → Run Server
cmd_getmulticast p args s = do
  client ← load p s.sessions
  if not client.logged_in
      then reply p (codes "You need to be logged in to perform this command\n") s
      else (do
        words ← scan_name max_group_name args
        elim words [
          | none ↦ reply p (codes "Invalid usage! Use: GETMULTICAST <GROUP-ID>\n") s
          | some group_name ↦ (do
            c ← load client.client s.clients
            if not (is_nonzero c.group)
                then reply p (codes "You do not have permission to use this command\n") s
                else (do
                  (group, h) ← new_group group_name [] s.group_heap
                  found ← avl_get group_cmp h s.group_list group
                  answer_group p found (record s { group_heap = free group h })))
        ])
