-- ===== src/Server/Groups.antt =====
-- The multicast groups: the list of groups, and the state in which CREATEMULTICAST and GETMULTICAST
-- of client_commands.c search it.
pub mod Create
pub mod Get
use mathlib.Core.Path.{ap₂}
use rc_project.Base.{
  ℕ, ◌+◌, ◌<◌, ◌≤◌, ◌≡◌, ◌≢◌, refl, ap, sym, ◌∙◌, arith, List, [], ◌∷◌, Option, none, some, Run, ok,
  ◌>>=◌, All, length, if◌then◌else◌, true, false, Bool, ◌==◌,
}
use rc_project.Memory.{Ptr, Heap, malloc, store, free, IsBlock, Extends, Extends-malloc}
use rc_project.Text.{Bytes, strcpy}
use rc_project.Avl.{elements}
use rc_project.Avl.Order.{find}
use rc_project.Avl.Handle.Refines.{IsValid, contents, IsValid-Extends, contents-Extends}
use rc_project.Server.{Server, Group, group_cmp, new_group, max_group_name}
use rc_project.Server.Users.{strcpy-ok, apart_of_allocated}

abbrev pub groups_of : Server → List Group
groups_of s = contents s.group_heap s.group_list

abbrev pub GroupsValid : Server → Type 0
GroupsValid s = IsValid group_cmp s.group_heap s.group_list

abbrev pub grp : Bytes → Bytes → Group
grp name ip = record { name = name; ip = ip }

pub new_group-ok :
    (name : Bytes) (h : Heap Group)
    → length name < max_group_name
    → new_group name [] h ≡ ok (malloc (grp name []) h)
unfolding new_group strcpy
new_group-ok name h f = ground arith

pub find-called :
    (name ip ip' : Bytes) (xs : List Group)
    → find group_cmp (grp name ip) xs ≡ find group_cmp (grp name ip') xs
unfolding find group_cmp
find-called name ip ip' [] = refl
find-called name ip ip' (x ∷ xs) = ground (arith, find-called name ip ip' xs)

module _ (name ip : Bytes) (s : Server) (v : GroupsValid s) where
  -- the heap with the group that `new_group` makes, and with its address set
  abbrev pub with_group : Heap Group
  with_group = (malloc (grp name []) s.group_heap).1

  abbrev pub with_ip : Heap Group
  with_ip = store s.group_heap.next (grp name ip) with_group

  pub Extends-with_ip : Extends s.group_heap with_ip
  Extends-with_ip = record {
    cells = λ p lt. ground arith;
    lives = λ p lt. ground arith;
    grows = omega arith;
  }

  pub with_group-IsValid : IsValid group_cmp with_group s.group_list
  with_group-IsValid =
      IsValid-Extends group_cmp s.group_heap with_group s.group_list v
        (Extends-malloc (grp name []) s.group_heap)

  pub with_group-contents : contents with_group s.group_list ≡ groups_of s
  with_group-contents =
      contents-Extends s.group_heap with_group s.group_list v.allocated
        (Extends-malloc (grp name []) s.group_heap)

  pub with_ip-IsValid : IsValid group_cmp with_ip s.group_list
  with_ip-IsValid = IsValid-Extends group_cmp s.group_heap with_ip s.group_list v Extends-with_ip

  pub with_ip-contents : contents with_ip s.group_list ≡ groups_of s
  with_ip-contents = contents-Extends s.group_heap with_ip s.group_list v.allocated Extends-with_ip

  pub with_ip-cell : with_ip.cell s.group_heap.next ≡ grp name ip
  with_ip-cell = ground arith

  pub with_group-cell : with_group.cell s.group_heap.next ≡ grp name []
  with_group-cell = ground arith

  pub with_group-live : with_group.live s.group_heap.next ≡ true
  with_group-live = ground arith

  pub groups-apart : All (λ p. p ≢ s.group_heap.next) (elements s.group_list.root)
  groups-apart = apart_of_allocated s.group_heap (elements s.group_list.root) v.allocated

  pub find-with_group :
      find group_cmp (with_group.cell s.group_heap.next) (contents with_group s.group_list)
      ≡ find group_cmp (grp name ip) (groups_of s)
  find-with_group = rw (with_group-cell, with_group-contents) (find-called name [] ip (groups_of s))

  pub find-with_ip :
      find group_cmp (with_ip.cell s.group_heap.next) (contents with_ip s.group_list)
      ≡ find group_cmp (grp name ip) (groups_of s)
  find-with_ip = rw (with_ip-cell, with_ip-contents)
