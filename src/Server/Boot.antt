-- ===== src/Server/Boot.antt =====
-- code/server/src/main.c up to the start of the threads, and utils/numeric.c.
use rc_project.Base.{
  false, List, [], ◌∷◌, Option, none, some, ℤ, is_pos, if◌then◌else◌, Run, ok, ◌>>=◌,
}
use rc_project.Memory.{Ptr, Heap, empty_heap, malloc, store}
use rc_project.Text.{Bytes}
use rc_project.Text.Scan.{scan_int}
use rc_project.Avl.Handle.{AvlTree, new_avl_tree, avl_add}
use rc_project.Server.{Server, Client, Session, Group, data_cmp}

-- `none` is CONVERT_ERROR; the number is what is stored
unfoldable pub convert_int : Bytes → Run (Option ℤ)
convert_int string = do
  found ← scan_int string
  ok (elim found [ none ↦ none | some (n, rest) ↦ some n ])

-- a port, or the end of the program by `error`
unfoldable pub port_argument : Bytes → Run (Option ℤ)
unfolding convert_int
port_argument string = do
  found ← convert_int string
  ok (elim found [ none ↦ none | some n ↦ if is_pos n then some n else none ])

-- The loop over the records of the file: `client` is one object of the stack, which each `read`
-- fills. Results of `avl_add` are ignored.
unfoldable pub load_records :
    (client : Ptr) → List Client → Heap Client → AvlTree Client → Run (Heap Client × AvlTree Client)
load_records client [] h tree = ok (h, tree)
load_records client (r ∷ rs) h tree = do
  (_, h', tree') ← avl_add data_cmp (store client r h) tree client false false
  load_records client rs h' tree'

-- The state with which the threads start, for a records file of whole records. The `junk` values are
-- what memory holds before it is written.
unfoldable pub boot :
    (junk : Client) (junk_session : Session) (junk_group : Group) → List Client → Run Server
unfolding load_records new_avl_tree
boot junk junk_session junk_group records = do
  let (client, h) = malloc junk (empty_heap junk)
  (h', tree) ← load_records client records h (new_avl_tree records)
  ok (record {
    clients = h';
    sessions = empty_heap junk_session;
    group_heap = empty_heap junk_group;
    user_list = tree;
    user_session_list = new_avl_tree [];
    group_list = new_avl_tree [];
    current_group = 0;
    sent = [];
  })
