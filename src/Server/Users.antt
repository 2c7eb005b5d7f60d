-- ===== src/Server/Users.antt =====
-- The accounts: what ADD and DEL of admin_commands.c and the start of main.c make of the records in
-- memory and in the records file.
pub mod Change
pub mod Effects
pub mod Restart
pub mod Persist
use mathlib.Core.List.{map}
use mathlib.Core.Path.{ap₂}
use rc_project.Base.{
  ℕ, ◌+◌, ◌<◌, ◌≤◌, ◌≡◌, ◌≢◌, refl, ap, sym, ◌∙◌, arith, List, [], ◌∷◌, ◌++◌, Option, none, some, ℤ,
  pos, Run, ok, Returns, returned, length, All, All-imp, if◌then◌else◌, ltb, true, false, Bool,
}
use rc_project.Memory.{Ptr, Heap, malloc, free, IsBlock, Extends, Extends-malloc}
use rc_project.Text.{Bytes, codes, strcpy}
use rc_project.Avl.{elements}
use rc_project.Avl.Order.{find, insert_sorted, remove, is_same}
use rc_project.Avl.Handle.{AvlTree, avl_ok, avl_add, avl_duplicated_key}
use rc_project.Avl.Handle.Refines.{
  IsValid, contents, IsValid-Extends, contents-Extends, avl_add_duplicate,
}
use rc_project.Avl.Handle.Add.{avl_add_new}
use rc_project.Server.{
  Server, Client, data_cmp, new_client, username_size, password_size, ip_size, write_fd,
}
use rc_project.Server.Compare.{data_cmp-IsComparator}

pub strcpy-ok : (size : ℕ) (s : Bytes) → length s < size → strcpy size s ≡ ok s
unfolding strcpy
strcpy-ok size s h = ground arith

-- the strings fit in the arrays of `struct client`
pub record Fits (username password ip : Bytes) : Type 0 where
  pub username_fits : length username < username_size
  pub password_fits : length password < password_size
  pub ip_fits : length ip < ip_size

-- what `new_client` puts in the new block; the port is what the memory held
abbrev pub made : Bytes → Bytes → Bytes → ℤ → ℤ → ℤ → Heap Client → Client
made username password ip client_server p2p group h = record {
  username = username;
  password = password;
  ip = ip;
  port = (h.cell h.next).port;
  client_server = client_server;
  p2p = p2p;
  group = group;
}

pub new_client-ok :
    (username password ip : Bytes) (client_server p2p group : ℤ) (h : Heap Client)
    → Fits username password ip
    → new_client username password ip client_server p2p group h
      ≡ ok (malloc (made username password ip client_server p2p group h) h)
unfolding new_client
new_client-ok username password ip client_server p2p group h f = rw (
  strcpy-ok username_size username f.username_fits,
  strcpy-ok password_size password f.password_fits,
  strcpy-ok ip_size ip f.ip_fits,
)

-- the accounts in memory, in the order of their names
abbrev pub users : Server → List Client
users s = contents s.clients s.user_list

-- a search key
abbrev pub named : Bytes → Client
named username = record {
  username = username;
  password = [];
  ip = [];
  port = pos 0;
  client_server = pos 0;
  p2p = pos 0;
  group = pos 0;
}

-- `find` by name alone
pub find-named :
    (c : Client) (xs : List Client) → find data_cmp c xs ≡ find data_cmp (named c.username) xs
unfolding data_cmp find
find-named c [] = refl
find-named c (x ∷ xs) = ground (arith, find-named c xs)

pub remove-named :
    (c : Client) (xs : List Client) → remove data_cmp c xs ≡ remove data_cmp (named c.username) xs
unfolding data_cmp remove
remove-named c [] = refl
remove-named c (x ∷ xs) = ground (arith, remove-named c xs)

abbrev pub UsersValid : Server → Type 0
UsersValid s = IsValid data_cmp s.clients s.user_list

-- no block of the tree is the next one that `malloc` returns
pub apart_of_allocated :
    {D : Type 0} (h : Heap D) (xs : List Ptr) → All (IsBlock h) xs → All (λ p. p ≢ h.next) xs
apart_of_allocated h xs a = All-imp (λ p b. omega (arith, b.0)) xs a

module _ (s : Server) (v : UsersValid s) (c : Client) where
  -- the heap once `new_client` has made `c`
  abbrev pub with_client : Heap Client
  with_client = (malloc c s.clients).1

  pub with_client-IsValid : IsValid data_cmp with_client s.user_list
  with_client-IsValid =
      IsValid-Extends data_cmp s.clients with_client s.user_list v (Extends-malloc c s.clients)

  pub with_client-contents : contents with_client s.user_list ≡ users s
  with_client-contents =
      contents-Extends s.clients with_client s.user_list v.allocated (Extends-malloc c s.clients)

  pub with_client-cell : with_client.cell s.clients.next ≡ c
  with_client-cell = ground arith

  pub with_client-live : with_client.live s.clients.next ≡ true
  with_client-live = ground arith

  pub with_client-apart : All (λ p. p ≢ s.clients.next) (elements s.user_list.root)
  with_client-apart = apart_of_allocated s.clients (elements s.user_list.root) v.allocated

  pub find-with_client :
      find data_cmp (with_client.cell s.clients.next) (contents with_client s.user_list)
      ≡ find data_cmp (named c.username) (users s)
  find-with_client = rw (with_client-cell, with_client-contents) (find-named c (users s))
