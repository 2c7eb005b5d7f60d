-- ===== src/Server/Records.antt =====
-- The functions of code/server/src/client/client.c that the commands do not call, and
-- code/server/src/admin/admin.c.
use rc_project.Base.{◌++◌, ℤ}
use rc_project.Memory.{Ptr, Heap, malloc, free}
use rc_project.Text.{Bytes, codes, strcmp}
use rc_project.Server.{Client}

unfoldable pub client_cmp : Client → Client → ℤ
client_cmp a b = strcmp a.username b.username

unfoldable pub client_print : Client → Bytes
client_print client = client.username ++ codes "\n"

unfoldable pub free_client : Ptr → Heap Client → Heap Client
free_client client h = free client h

-- `struct admin`
pub record Admin : Type 0 where
  pub socket : ℤ
  pub admin : Ptr

unfoldable pub new_admin : ℤ → Ptr → Heap Admin → Ptr × Heap Admin
new_admin socket admin h = malloc (record { socket = socket; admin = admin }) h

unfoldable pub free_admin : Ptr → Heap Admin → Heap Admin
free_admin admin h = free admin h
