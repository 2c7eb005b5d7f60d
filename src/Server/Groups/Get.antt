-- ===== src/Server/Groups/Get.antt =====
-- GETMULTICAST of client_commands.c on a valid list of groups.
use mathlib.Core.Option
use rc_project.Base.{
  map-eq-some, map-eq-none, ◌<◌, ◌≡◌, refl, sym, ◌∙◌, [], ◌++◌, Option, none, some, true, ok,
  length, is_nonzero,
}
use rc_project.Memory.{Ptr, Heap, IsBlock, Extends-scratch, scratch, load-ok}
use rc_project.Text.{Bytes, codes}
use rc_project.Avl.{elements}
use rc_project.Avl.Order.{find}
use rc_project.Avl.Handle.{cmp_at}
use rc_project.Avl.Handle.Refines.{avl_lookup, avl_get-ok, avl_lookup-find, avl_lookup-contents}
use rc_project.Server.{Server, Group, group_cmp, max_group_name, send_udp_message}
use rc_project.Server.Compare.{group_cmp-IsComparator}
use rc_project.Server.Commands.{scan_name}
use rc_project.Server.Commands.Multicast.{cmd_getmulticast, answer_group}
use rc_project.Server.Commands.Lookup.{find-All}
use rc_project.Server.Groups.{
  GroupsValid, groups_of, grp, new_group-ok, with_group, with_group-IsValid, with_group-live,
  find-with_group,
}

-- what GETMULTICAST answers, by the group with the name if there is one
abbrev pub group_answer : Option Group → Bytes
group_answer none = codes "Group not found\n"
group_answer (some g) = codes "Multicast IP " ++ g.ip ++ codes "\n"

module _ (p : Ptr) (args name : Bytes) (s : Server) (v : GroupsValid s)
    (live : s.sessions.live p ≡ true) (on : (s.sessions.cell p).logged_in ≡ true)
    (there : s.clients.live (s.sessions.cell p).client ≡ true)
    (allowed : is_nonzero (s.clients.cell (s.sessions.cell p).client).group ≡ true)
    (scanned : scan_name max_group_name args ≡ ok (some name))
    (fits : length name < max_group_name) where
  abbrev h : Heap Group
  h = with_group name [] s v

  -- the state after the search
  abbrev pub group_searched : Server
  group_searched = record s { group_heap = scratch (grp name []) s.group_heap }

  got :
      Option.map h.cell
        (avl_lookup group_cmp group_cmp-IsComparator h s.group_list s.group_heap.next)
      ≡ find group_cmp (grp name []) (groups_of s)
  got =
      avl_lookup-contents group_cmp group_cmp-IsComparator h s.group_list s.group_heap.next
        (with_group-IsValid name [] s v)
      ∙ find-with_group name [] s v

  reaches_answer :
      cmd_getmulticast p args s
      ≡ answer_group p
          (avl_lookup group_cmp group_cmp-IsComparator h s.group_list s.group_heap.next)
          group_searched
  unfolding cmd_getmulticast
  reaches_answer = rw (
    load-ok p s.sessions live,
    on,
    scanned,
    load-ok (s.sessions.cell p).client s.clients there,
    allowed,
    new_group-ok name s.group_heap fits,
    avl_get-ok group_cmp group_cmp-IsComparator h s.group_list s.group_heap.next
        (with_group-IsValid name [] s v) (with_group-live name [] s v),
  )

  answered :
      (o : Option Group)
      → find group_cmp (grp name []) (groups_of s) ≡ o
      → answer_group p
          (avl_lookup group_cmp group_cmp-IsComparator h s.group_list s.group_heap.next)
          group_searched
        ≡ ok (send_udp_message (s.sessions.cell p) (group_answer o) group_searched)
  unfolding answer_group
  answered none e = rw (map-eq-none h.cell _ (got ∙ e)) (rw (load-ok p s.sessions live))
  answered (some g) e =
      let (q, f, held) =
        map-eq-some h.cell
          (avl_lookup group_cmp group_cmp-IsComparator h s.group_list s.group_heap.next)
          (got ∙ e) in
      let b : IsBlock s.group_heap q =
        find-All (cmp_at group_cmp h) (IsBlock s.group_heap) s.group_heap.next
          (elements s.group_list.root) v.allocated
          (sym (
              avl_lookup-find group_cmp group_cmp-IsComparator h s.group_list s.group_heap.next
                (with_group-IsValid name [] s v))
            ∙ f) in
      let x = Extends-scratch (grp name []) s.group_heap in
      let cell : group_searched.group_heap.cell q ≡ g = held in
      rw f (
        rw (
          load-ok q group_searched.group_heap (x.lives q b.0 ∙ b.1),
          load-ok p s.sessions live,
          cell,
        ))

  -- In a session that is logged in to an account with the permission for groups, with a valid list
  -- of groups and a name that fits its array, GETMULTICAST answers with the address of the group
  -- with that name, or that there is none. Nothing else happens but that a block is allocated and
  -- freed.
  pub cmd_getmulticast_lem :
      cmd_getmulticast p args s
      ≡ ok (
          send_udp_message
            (s.sessions.cell p)
            (group_answer (find group_cmp (grp name []) (groups_of s)))
            group_searched)
  cmd_getmulticast_lem = reaches_answer ∙ answered (find group_cmp (grp name []) (groups_of s)) refl
