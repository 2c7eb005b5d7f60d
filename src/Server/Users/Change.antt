-- ===== src/Server/Users/Change.antt =====
-- ADD and DEL of admin_commands.c, as changes to the accounts and to the records file.
use rc_project.Base.{
  ℕ, ◌<◌, ◌≡◌, refl, ◌∙◌, arith, [], ◌∷◌, ◌++◌, none, some, pos, Returns, length, if◌then◌else◌,
  true,
}
use rc_project.Memory.{Extends, Extends-malloc}
use rc_project.Text.{Bytes, codes}
use rc_project.Avl.Order.{find, insert_sorted, remove}
use rc_project.Avl.Handle.Refines.{avl_add_duplicate, avl_remove_missing}
use rc_project.Server.{Server, Client, data_cmp, write_fd, username_size}
use rc_project.Server.Admin.{NewUser, add_user, delete_user}
use rc_project.Server.Compare.{data_cmp-IsComparator}
use rc_project.Server.Users.Effects.{avl_add-Stored, avl_remove-Dropped, is_inner}
use rc_project.Server.Users.{
  Fits, made, new_client-ok, users, named, UsersValid, with_client, with_client-IsValid,
  with_client-contents, with_client-live, find-with_client,
}

-- what the answer to the administrator is, with nothing else changed but the accounts
abbrev pub Answers : ℕ → Bytes → Server → Server → Type 0
Answers socket text s s' =
    s' ≡ write_fd socket text (record s { clients = s'.clients; user_list = s'.user_list })

module _ (socket : ℕ) (u : NewUser) (s : Server) (v : UsersValid s)
    (fits : Fits u.username u.password u.ip) where
  -- the record that ADD makes
  abbrev pub new_record : Client
  new_record = made u.username u.password u.ip u.client_server u.p2p u.group s.clients

  -- With valid accounts and words that fit their arrays, ADD of a name that no account has: the
  -- accounts in memory get the new record at its place, and the file gets it at its end. The
  -- accounts are valid again, the blocks in use keep their contents, and the answer says that the
  -- user was created. Nothing else changes.
  pub add_user_new :
      find data_cmp (named u.username) (users s) ≡ none
      → Returns
          (λ s'.
            UsersValid s'
            × (users s' ≡ insert_sorted data_cmp new_record (users s))
            × (s'.user_list.file ≡ s.user_list.file ++ (new_record ∷ []))
            × Extends s.clients s'.clients
            × Answers socket (codes "User " ++ u.username ++ codes " created.\n") s s')
          (add_user socket u s)
  unfolding add_user write_fd
  add_user_new missing =
      let (h, tree, e, st) = avl_add-Stored s v new_record missing in
      rw (new_client-ok u.username u.password u.ip u.client_server u.p2p u.group s.clients fits, e)
        (st.valid, st.holds, st.file, st.extends, refl)

  -- With valid accounts and words that fit their arrays, ADD of a name that an account has changes
  -- neither the accounts nor the file, and the answer says that the user exists. Nothing else
  -- changes.
  pub add_user_duplicate :
      {r : Client}
      → find data_cmp (named u.username) (users s) ≡ some r
      → Returns
          (λ s'.
            UsersValid s'
            × (users s' ≡ users s)
            × (s'.user_list ≡ s.user_list)
            × Extends s.clients s'.clients
            × Answers socket (codes "User already exists\n") s s')
          (add_user socket u s)
  unfolding add_user write_fd
  add_user_duplicate there =
      rw
        (
          new_client-ok u.username u.password u.ip u.client_server u.p2p u.group s.clients fits,
          avl_add_duplicate data_cmp data_cmp-IsComparator (with_client s v new_record) s.user_list
              s.clients.next true true (with_client-IsValid s v new_record)
              (with_client-live s v new_record) (find-with_client s v new_record ∙ there),
        )
        (
          with_client-IsValid s v new_record,
          with_client-contents s v new_record,
          refl,
          Extends-malloc new_record s.clients,
          refl,
        )

module _ (socket : ℕ) (username : Bytes) (s : Server) (v : UsersValid s)
    (fits : length username < username_size) where
  -- the record that DEL makes, to search by
  abbrev search_key : Client
  search_key = made username [] [] (pos 1) (pos 1) (pos 1) s.clients

  key-Fits : Fits username [] []
  key-Fits = record { username_fits = fits; password_fits = omega arith; ip_fits = omega arith }

  -- With valid accounts and a name that fits its array, DEL of the name of an account: the answer
  -- says that the user was deleted, and the file is rewritten with the accounts that are left. The
  -- account is gone, unless it stands in a node with two children: then all accounts are still
  -- there. The accounts are valid again, and nothing else changes.
  pub delete_user_present :
      {r : Client}
      → find data_cmp (named username) (users s) ≡ some r
      → Returns
          (λ s'.
            UsersValid s'
            × (users s' ≡ (
                if is_inner (named username) s.clients s.user_list.root
                then users s
                else remove data_cmp (named username) (users s)))
            × (s'.user_list.file ≡ users s')
            × Extends s.clients s'.clients
            × Answers socket (codes "User " ++ username ++ codes " deleted.\n") s s')
          (delete_user socket username s)
  unfolding delete_user write_fd
  delete_user_present there =
      let (h, tree, e, d) = avl_remove-Dropped s v search_key there in
      rw (new_client-ok username [] [] (pos 1) (pos 1) (pos 1) s.clients key-Fits, e)
        (d.valid, d.holds, d.file, d.extends, refl)

  -- With valid accounts and a name that fits its array, DEL of a name that no account has changes
  -- neither the accounts nor the file, and the answer says that the user was not found. Nothing
  -- else changes.
  pub delete_user_missing :
      find data_cmp (named username) (users s) ≡ none
      → Returns
          (λ s'.
            UsersValid s'
            × (users s' ≡ users s)
            × (s'.user_list ≡ s.user_list)
            × Extends s.clients s'.clients
            × Answers socket (codes "User not found\n") s s')
          (delete_user socket username s)
  unfolding delete_user write_fd
  delete_user_missing missing =
      rw
        (
          new_client-ok username [] [] (pos 1) (pos 1) (pos 1) s.clients key-Fits,
          avl_remove_missing data_cmp data_cmp-IsComparator (with_client s v search_key) s.user_list
              s.clients.next true true (with_client-IsValid s v search_key)
              (with_client-live s v search_key) (find-with_client s v search_key ∙ missing),
        )
        (
          with_client-IsValid s v search_key,
          with_client-contents s v search_key,
          refl,
          Extends-malloc search_key s.clients,
          refl,
        )
