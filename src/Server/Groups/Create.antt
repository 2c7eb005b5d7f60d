-- ===== src/Server/Groups/Create.antt =====
-- CREATEMULTICAST of client_commands.c on a valid list of groups.
use mathlib.Core.Path.{ap₂}
use mathlib.Core.Option
use rc_project.Base.{
  map-eq-some, map-eq-none, ◌+◌, ◌<◌, ◌≤◌, ◌≡◌, refl, ap, ◌∙◌, arith, [], ◌++◌, none, some, ok,
  length, true, false, Returns, returned, get_elem?, get_elem?-lt, ltb, is_nonzero,
}
use rc_project.Memory.{Ptr, Heap, load-ok, scratch, Extends-scratch}
use rc_project.Text.{Bytes, codes}
use rc_project.Avl.Order.{find, insert_sorted}
use rc_project.Avl.Handle.{AvlTree, avl_add, avl_ok, avl_get}
use rc_project.Avl.Handle.Refines.{
  IsValid, contents, IsValid-Extends, contents-Extends, avl_lookup-contents, avl_lookup, avl_get-ok,
}
use rc_project.Avl.Handle.Add.{avl_add_new}
use rc_project.Server.{
  Server, Group, group_cmp, max_group_name, groups, max_groups, send_udp_message,
}
use rc_project.Server.Commands.Access.{reply-ok}
use rc_project.Server.Compare.{group_cmp-IsComparator}
use rc_project.Server.Commands.{scan_name}
use rc_project.Server.Commands.Multicast.{cmd_createmulticast, create_group, create_new_group}
use rc_project.Server.Groups.{
  groups_of, GroupsValid, grp, new_group-ok, with_group, with_ip, with_group-IsValid,
  with_group-live, with_group-contents, with_ip-IsValid, with_ip-contents, with_ip-cell,
  groups-apart, find-with_group, find-with_ip,
}

-- what creating a group makes of the state
pub record Created (s : Server) (name ip : Bytes) (h : Heap Group) (tree : AvlTree Group)
    : Type 0 where
  pub valid : IsValid group_cmp h tree
  pub holds : contents h tree ≡ insert_sorted group_cmp (grp name ip) (groups_of s)

avl_add-Created :
    (name ip : Bytes) (s : Server) (v : GroupsValid s)
    → find group_cmp (grp name ip) (groups_of s) ≡ none
    → (h : Heap Group) × (tree : AvlTree Group) × (avl_add group_cmp
          (with_ip name ip s v)
          s.group_list
          s.group_heap.next
          true
          false
        ≡ ok (avl_ok, h, tree))
      × Created s name ip h tree
avl_add-Created name ip s v missing =
    let ((code, h, tree), e, done) =
      returned _ (avl_add group_cmp (with_ip name ip s v) s.group_list s.group_heap.next true false)
        (avl_add_new group_cmp group_cmp-IsComparator (with_ip name ip s v) s.group_list
          s.group_heap.next true false (with_ip-IsValid name ip s v) (omega arith)
          (with_group-live name ip s v) (groups-apart name ip s v)
          (find-with_ip name ip s v ∙ missing)) in
    (
      h,
      tree,
      e ∙ ap (λ k. ok (k, h, tree)) done.0,
      record {
        valid = done.1;
        holds =
            done.2
            ∙ ap₂ (insert_sorted group_cmp) (with_ip-cell name ip s v)
                (with_ip-contents name ip s v);
      },
    )

module _ (p : Ptr) (args name : Bytes) (s : Server) (v : GroupsValid s)
    (live : s.sessions.live p ≡ true) (on : (s.sessions.cell p).logged_in ≡ true)
    (there : s.clients.live (s.sessions.cell p).client ≡ true)
    (allowed : is_nonzero (s.clients.cell (s.sessions.cell p).client).group ≡ true)
    (scanned : scan_name max_group_name args ≡ ok (some name))
    (fits : length name < max_group_name) where
  abbrev h : Heap Group
  h = with_group name [] s v

  abbrev freed : Heap Group
  freed = scratch (grp name []) s.group_heap

  got :
      (ip : Bytes)
      → Option.map h.cell
          (avl_lookup group_cmp group_cmp-IsComparator h s.group_list s.group_heap.next)
        ≡ find group_cmp (grp name ip) (groups_of s)
  got ip =
      avl_lookup-contents group_cmp group_cmp-IsComparator h s.group_list s.group_heap.next
        (with_group-IsValid name [] s v)
      ∙ find-with_group name ip s v

  reaches_create :
      cmd_createmulticast p args s
      ≡ create_new_group p s.group_heap.next name (record s { group_heap = h })
  unfolding cmd_createmulticast
  reaches_create = rw (
    load-ok p s.sessions live,
    on,
    scanned,
    load-ok (s.sessions.cell p).client s.clients there,
    allowed,
    new_group-ok name s.group_heap fits,
  )

  looked_up :
      avl_get group_cmp h s.group_list s.group_heap.next
      ≡ ok (avl_lookup group_cmp group_cmp-IsComparator h s.group_list s.group_heap.next)
  looked_up =
      avl_get-ok group_cmp group_cmp-IsComparator h s.group_list s.group_heap.next
        (with_group-IsValid name [] s v) (with_group-live name [] s v)

  create_new_group-none :
      (ip : Bytes)
      → find group_cmp (grp name ip) (groups_of s) ≡ none
      → create_new_group p s.group_heap.next name (record s { group_heap = h })
        ≡ create_group p s.group_heap.next name (record s { group_heap = h })
  unfolding create_new_group
  create_new_group-none ip missing =
      rw (create_new_group, looked_up, map-eq-none h.cell _ (got ip ∙ missing))

  create_group-ok :
      {ip : Bytes} {h' : Heap Group} {tree : AvlTree Group}
      → find group_cmp (grp name ip) (groups_of s) ≡ none
      → get_elem? groups s.current_group ≡ some ip
      → avl_add group_cmp (with_ip name ip s v) s.group_list s.group_heap.next true false
        ≡ ok (avl_ok, h', tree)
      → create_group p s.group_heap.next name (record s { group_heap = h })
        ≡ ok (
            send_udp_message
              (s.sessions.cell p)
              (codes "Group " ++ name ++ codes " Multicast ip: " ++ ip ++ codes "\n")
              (record s {
                current_group = s.current_group + 1;
                group_heap = h';
                group_list = tree;
              }))
  unfolding create_group
  create_group-ok {ip} missing next added =
      let below : s.current_group < 6 = get_elem?-lt groups s.current_group next in
      let left : ltb s.current_group max_groups ≡ true = ground arith in
      let block : h.live s.group_heap.next ≡ true = ground arith in
      let cell : h.cell s.group_heap.next ≡ grp name [] = ground arith in
      rw (left, next, load-ok s.group_heap.next h block, cell, added, load-ok p s.sessions live)

  -- In a session that is logged in to an account with the permission for groups, with a valid list
  -- of groups and a name that fits its array: CREATEMULTICAST with a name that is not taken, while
  -- addresses are left, adds a group with the name and the next address of the table. The list is
  -- valid again, the count goes up by one, and the answer gives the address. Nothing else changes.
  pub cmd_createmulticast-new :
      {ip : Bytes}
      → find group_cmp (grp name ip) (groups_of s) ≡ none
      → get_elem? groups s.current_group ≡ some ip
      → Returns
          (λ s'.
            GroupsValid s'
            × (groups_of s' ≡ insert_sorted group_cmp (grp name ip) (groups_of s))
            × (s'
                ≡ send_udp_message
                    (s.sessions.cell p)
                    (codes "Group " ++ name ++ codes " Multicast ip: " ++ ip ++ codes "\n")
                    (record s {
                      current_group = s.current_group + 1;
                      group_heap = s'.group_heap;
                      group_list = s'.group_list;
                    })))
          (cmd_createmulticast p args s)
  unfolding send_udp_message
  cmd_createmulticast-new {ip} missing next =
      let x = s.group_heap.next in
      let (h', tree, e, c) = avl_add-Created name ip s v missing in
      rw (reaches_create, create_new_group-none ip missing, create_group-ok missing next e)
        (c.valid, c.holds, refl)

  -- In a session that is logged in to an account with the permission for groups, with a valid list
  -- of groups and a name that fits its array: CREATEMULTICAST with a name that is taken is answered
  -- by saying so. The list is valid and holds the groups it held, and nothing else changes but the
  -- heap of groups.
  pub cmd_createmulticast-taken :
      {g : Group}
      → find group_cmp (grp name []) (groups_of s) ≡ some g
      → Returns
          (λ s'.
            GroupsValid s'
            × (groups_of s' ≡ groups_of s)
            × (s'
                ≡ send_udp_message
                    (s.sessions.cell p)
                    (codes "Duplicated group name\n")
                    (record s { group_heap = s'.group_heap })))
          (cmd_createmulticast p args s)
  unfolding create_new_group send_udp_message
  cmd_createmulticast-taken found =
      let (g', e, same) =
        map-eq-some h.cell
          (avl_lookup group_cmp group_cmp-IsComparator h s.group_list s.group_heap.next)
          (got [] ∙ found) in
      rw
        (
          reaches_create,
          create_new_group,
          looked_up,
          e,
          reply-ok p (codes "Duplicated group name\n") (record s { group_heap = h }) live,
        )
        (with_group-IsValid name [] s v, with_group-contents name [] s v, refl)

  -- In a session that is logged in to an account with the permission for groups, with a valid list
  -- of groups and a name that fits its array: CREATEMULTICAST with a name that is not taken, when
  -- all six addresses are given, is answered by saying so. The list is valid and holds the groups
  -- it held, and nothing else changes but the heap of groups.
  pub cmd_createmulticast-full :
      find group_cmp (grp name []) (groups_of s) ≡ none
      → max_groups ≤ s.current_group
      → Returns
          (λ s'.
            GroupsValid s'
            × (groups_of s' ≡ groups_of s)
            × (s'
                ≡ send_udp_message
                    (s.sessions.cell p)
                    (codes "Cannot create more groups\n")
                    (record s { group_heap = s'.group_heap })))
          (cmd_createmulticast p args s)
  unfolding create_group send_udp_message
  cmd_createmulticast-full missing full =
      let left : ltb s.current_group max_groups ≡ false = ground arith in
      rw (reaches_create, create_new_group-none [] missing, left, load-ok p s.sessions live)
        (
          IsValid-Extends group_cmp s.group_heap freed s.group_list v
              (Extends-scratch (grp name []) s.group_heap),
          contents-Extends s.group_heap freed s.group_list v.allocated
              (Extends-scratch (grp name []) s.group_heap),
          refl,
        )
