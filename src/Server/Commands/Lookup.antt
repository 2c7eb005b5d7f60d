-- ===== src/Server/Commands/Lookup.antt =====
-- `avl_get` by a user's name and by a session's address, as client_commands.c uses it.
use mathlib.Core.Option
use mathlib.Core.Path.{subst}
use rc_project.Base.{
  map-eq-some, map-eq-none, Bool-cases, inl, inr, ◌<◌, ◌≡◌, refl, sym, ◌∙◌, arith, List, [], ◌∷◌,
  none, some, pos, ok, Run, Option, ℤ, All, length,
}
use rc_project.Memory.{Ptr, scratch, IsBlock, Extends-malloc}
use rc_project.Text.{Bytes}
use rc_project.Avl.{elements}
use rc_project.Avl.First.{FirstAt, FirstAt-agree, find-FirstAt}
use rc_project.Avl.Order.{find, is_same}
use rc_project.Avl.Handle.{avl_get, cmp_at}
use rc_project.Avl.Handle.Refines.{avl_lookup, avl_get-ok, avl_lookup-find, avl_lookup-contents}
use rc_project.Server.{Server, Client, data_cmp, username_size}
use rc_project.Server.Compare.{data_cmp-IsComparator}
use rc_project.Server.Users.{
  Fits, made, new_client-ok, users, named, UsersValid, with_client, with_client-IsValid,
  with_client-cell, with_client-live, find-with_client,
}
use rc_project.Server.Commands.{find_client}

module _ {ℓ} {A : Type ℓ} (cmp : A → A → ℤ) where
  pub find-All {κ} :
      (P : A → Type κ) (x : A) (xs : List A) {y : A} → All P xs → find cmp x xs ≡ some y → P y
  unfolding find
  find-All P x [] h e = cc
  find-All P x (z ∷ zs) {y} (hz, h) e = elim (Bool-cases (is_same cmp x z)) [
    | inl hit ↦
        let found : some z ≡ some y = rw hit at e in let same : z ≡ y = cc in subst P same hz
    | inr miss ↦ find-All P x zs h (rw miss at e)
  ]

module _ (username : Bytes) (s : Server) (v : UsersValid s)
    (fits : length username < username_size) where
  -- the record to search by
  abbrev pub client_arg : Client
  client_arg = made username [] [] (pos 0) (pos 0) (pos 0) s.clients

  -- the state after the search: the block of the key is allocated and freed
  abbrev pub searched : Server
  searched = record s { clients = scratch client_arg s.clients }

  arg-Fits : Fits username [] []
  arg-Fits = record { username_fits = fits; password_fits = omega arith; ip_fits = omega arith }

  got :
      Option.map (with_client s v client_arg).cell (
        avl_lookup data_cmp data_cmp-IsComparator
          (with_client s v client_arg)
          s.user_list
          s.clients.next)
      ≡ find data_cmp (named username) (users s)
  got =
      avl_lookup-contents data_cmp data_cmp-IsComparator (with_client s v client_arg) s.user_list
        s.clients.next (with_client-IsValid s v client_arg)
      ∙ find-with_client s v client_arg

  -- the search of the tree, for the key in use
  looked_up :
      avl_get data_cmp (with_client s v client_arg) s.user_list s.clients.next
      ≡ ok (
          avl_lookup data_cmp data_cmp-IsComparator
            (with_client s v client_arg)
            s.user_list
            s.clients.next)
  looked_up =
      avl_get-ok data_cmp data_cmp-IsComparator (with_client s v client_arg) s.user_list
        s.clients.next (with_client-IsValid s v client_arg) (with_client-live s v client_arg)

  -- With valid accounts and a name that fits its array, the search for the name of an account
  -- returns the block of that account, and changes nothing but that a block is allocated and freed.
  pub find_client-some :
      {c : Client}
      → find data_cmp (named username) (users s) ≡ some c
      → (q : Ptr) × (find_client username s ≡ ok (some q, searched))
        × IsBlock s.clients q
        × (s.clients.cell q ≡ c)
  unfolding find_client
  find_client-some there =
      let (q, e, held) = map-eq-some _ _ (got ∙ there) in
      let block : IsBlock s.clients q =
        find-All (cmp_at data_cmp (with_client s v client_arg)) (IsBlock s.clients) s.clients.next
          (elements s.user_list.root) v.allocated
          (sym (
              avl_lookup-find data_cmp data_cmp-IsComparator (with_client s v client_arg)
                s.user_list s.clients.next (with_client-IsValid s v client_arg))
            ∙ e) in
      (
        q,
        rw (new_client-ok username [] [] (pos 0) (pos 0) (pos 0) s.clients arg-Fits, looked_up, e),
        block,
        sym ((Extends-malloc client_arg s.clients).cells q block.0) ∙ held,
      )

  -- the block is the first one with the name
  pub find_client-FirstAt :
      (q : Ptr)
      → find_client username s ≡ ok (some q, searched)
      → FirstAt data_cmp (named username) searched.clients.cell q (elements s.user_list.root)
  unfolding find_client data_cmp
  find_client-FirstAt q e =
      let h = with_client s v client_arg in
      let run : find_client username s
          ≡ ok (avl_lookup data_cmp data_cmp-IsComparator h s.user_list s.clients.next, searched) =
        rw (new_client-ok username [] [] (pos 0) (pos 0) (pos 0) s.clients arg-Fits, looked_up)
          refl in
      let same : ◌≡◌ {A = Run (Option Ptr × Server)}
          (ok (avl_lookup data_cmp data_cmp-IsComparator h s.user_list s.clients.next, searched))
          (ok (some q, searched)) =
        sym run ∙ e in
      let got : avl_lookup data_cmp data_cmp-IsComparator h s.user_list s.clients.next ≡ some q =
        cc in
      let first = find-FirstAt data_cmp h s.clients.next q (elements s.user_list.root) (
        sym (
          avl_lookup-find data_cmp data_cmp-IsComparator h s.user_list s.clients.next
            (with_client-IsValid s v client_arg))
        ∙ got) in
      FirstAt-agree data_cmp (h.cell s.clients.next) (named username) h.cell searched.clients.cell q
        (elements s.user_list.root) (λ x. rw (with_client-cell s v client_arg) refl) first

  pub find_client-none :
      find data_cmp (named username) (users s) ≡ none → find_client username s ≡ ok (none, searched)
  unfolding find_client
  find_client-none missing = rw (
    new_client-ok username [] [] (pos 0) (pos 0) (pos 0) s.clients arg-Fits,
    looked_up,
    map-eq-none _ _ (got ∙ missing),
  )
