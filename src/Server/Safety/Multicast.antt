-- ===== src/Server/Safety/Multicast.antt =====
-- CREATEMULTICAST and GETMULTICAST of client_commands.c in a valid state.
use mathlib.Core.List.{map, Perm, perm_append_singleton}
use mathlib.Core.List.Perm
use rc_project.Avl.Perm.{map-insert_sorted-perm}
use rc_project.Base.{
  ◌+◌, ◌<◌, ◌≡◌, refl, ap, ◌∙◌, arith, ℕ, zero, suc, List, [], ◌∷◌, ◌++◌, Option, none, some, inl,
  inr, true, ok, Returns, returned, Option-cases, Bool-cases, length, is_nonzero, get_elem?, ltb,
  take,
}
use rc_project.Memory.{Ptr, Heap, IsBlock, Extends-refl, Extends-scratch, scratch, load-ok}
use rc_project.Text.{Bytes}
use rc_project.Text.Scan.{scan_word, matched}
use rc_project.Text.Scan.Fits.{scan_word-fits, >=>-eq-some}
use rc_project.Avl.Order.{find, insert_sorted}
use rc_project.Avl.Handle.{AvlTree}
use rc_project.Server.{
  Server, Session, Group, group_cmp, groups, max_groups, max_group_name, send_udp_message,
}
use rc_project.Server.Commands.{reply, scan_name}
use rc_project.Server.Commands.Access.{reply-ok}
use rc_project.Server.Commands.Multicast.{cmd_createmulticast, cmd_getmulticast}
use rc_project.Server.Groups.{GroupsValid, groups_of, grp, find-called}
use rc_project.Server.Groups.Get.{cmd_getmulticast_lem}
use rc_project.Server.Groups.Create.{
  cmd_createmulticast-new, cmd_createmulticast-taken, cmd_createmulticast-full,
}
use rc_project.Avl.Handle.Refines.{contents-Extends}
use rc_project.Server.Compare.{group_cmp-IsComparator}
use rc_project.Server.Safety.Lasting.{Onward, Lasts-trans, find-insert_other}
use rc_project.Server.Safety.{ServerValid, IsBound, Grows-ServerValid, send_udp_message-ServerValid}
use rc_project.Server.Safety.Targets.{own_account}

-- an answer alone
pub send_udp_message-Onward :
    (x : Session) (text : Bytes) (s : Server) → ServerValid s → Onward s (send_udp_message x text s)
unfolding send_udp_message
send_udp_message-Onward x text s v = (send_udp_message-ServerValid x text s v, λ name g e. e)

pub reply-Onward :
    (p : Ptr) (text : Bytes) (s s' : Server)
    → s'.sessions.live p ≡ true
    → Onward s s'
    → Returns (Onward s) (reply p text s')
reply-Onward p text s s' live (v, lasts) =
    let (valid, kept) = send_udp_message-Onward (s'.sessions.cell p) text s' v in
    rw (reply-ok p text s' live)
      (valid, Lasts-trans s s' (send_udp_message (s'.sessions.cell p) text s') lasts kept)

-- a change of the groups alone
module _ (s s' : Server) (v : ServerValid s) (x : Session) (text : Bytes) (n : ℕ) (h : Heap Group)
    (tree : AvlTree Group)
    (e : s'
      ≡ send_udp_message x text
          (record s { current_group = n; group_heap = h; group_list = tree })) where
  group_changed :
      GroupsValid s'
      → Perm (map (λ (g : Group). g.ip) (groups_of s')) (take n groups)
      → ServerValid s'
  unfolding send_udp_message
  group_changed groups_valid given = record {
    accounts = rw e v.accounts;
    sessions = rw e v.sessions;
    groups = groups_valid;
    bound = rw e v.bound;
    peers = rw e v.peers;
    flags = rw e v.flags;
    persisted = rw e v.persisted;
    addresses = rw (ap (λ (t : Server). t.current_group) e) given;
  }

get_elem?-some {ℓ} :
    {A : Type ℓ} (xs : List A) (i : ℕ) → i < length xs → (x : A) × (get_elem? xs i ≡ some x)
get_elem?-some [] i h = absurd (omega arith)
get_elem?-some (x ∷ xs) zero h = (x, refl)
get_elem?-some (x ∷ xs) (suc i) h = get_elem?-some xs i (omega arith)

take-suc {ℓ} :
    {A : Type ℓ} (xs : List A) (i : ℕ) {x : A}
    → get_elem? xs i ≡ some x
    → take (i + 1) xs ≡ take i xs ++ (x ∷ [])
take-suc [] i e = cc
take-suc (y ∷ xs) zero e = ap (λ z. z ∷ []) cc
take-suc (y ∷ xs) (suc i) e =
    let s : suc i + 1 ≡ suc (i + 1) = omega arith in rw (s, take-suc xs i e)

module _ (p : Ptr) (args : Bytes) (s : Server) (v : ServerValid s) (block : IsBlock s.sessions p)
    (bound : IsBound s.clients (s.sessions.cell p)) where
  module _ (on : (s.sessions.cell p).logged_in ≡ true)
      (allowed : is_nonzero (s.clients.cell (s.sessions.cell p).client).group ≡ true) (name : Bytes)
      (scanned : scan_name max_group_name args ≡ ok (some name))
      (fits : length name < max_group_name) where
    own : IsBlock s.clients (s.sessions.cell p).client
    own = own_account s.clients (s.sessions.cell p) bound on

    next_given :
        (ip : Bytes)
        → get_elem? groups s.current_group ≡ some ip
        → find group_cmp (grp name ip) (groups_of s) ≡ none
        → Perm
            (map (λ (g : Group). g.ip) (insert_sorted group_cmp (grp name ip) (groups_of s)))
            (take (s.current_group + 1) groups)
    next_given ip next missing =
        Perm.trans
          (map-insert_sorted-perm group_cmp (λ (g : Group). g.ip) (grp name ip) (groups_of s)
            missing)
          (rw (take-suc groups s.current_group next) (
            Perm.trans (Perm.cons ip v.addresses)
              (Perm.symm (perm_append_singleton ip (take s.current_group groups)))))

    created : Returns (Onward s) (cmd_createmulticast p args s)
    created = elim (Option-cases (find group_cmp (grp name []) (groups_of s))) [
      | inr (g, there) ↦
          let (s', e, done) = returned _ (cmd_createmulticast p args s) (
            cmd_createmulticast-taken p args name s v.groups block.1 on own.1 allowed scanned fits
              there) in
          rw e (
            group_changed s s' v (s.sessions.cell p) _ s.current_group s'.group_heap s.group_list
                done.2 done.0 (rw done.1 v.addresses),
            λ called f found. rw done.1 found,
          )
      | inl missing ↦ elim (Bool-cases (ltb s.current_group max_groups)) [
        | inl left ↦
            let (ip, next) = get_elem?-some groups s.current_group (ground arith) in
            let (s', e, done) = returned _ (cmd_createmulticast p args s) (
              cmd_createmulticast-new p args name s v.groups block.1 on own.1 allowed scanned fits
                (find-called name ip [] (groups_of s) ∙ missing) next) in
            rw e (
              group_changed s s' v (s.sessions.cell p) _ (s.current_group + 1) s'.group_heap
                  s'.group_list done.2 done.0
                  (rw done.1 (next_given ip next (find-called name ip [] (groups_of s) ∙ missing))),
              λ called f found. rw done.1 (
                  find-insert_other group_cmp group_cmp-IsComparator (grp called []) (grp name ip)
                    (groups_of s) (find-called name ip [] (groups_of s) ∙ missing) found),
            )
        | inr full ↦
            let (s', e, done) = returned _ (cmd_createmulticast p args s) (
              cmd_createmulticast-full p args name s v.groups block.1 on own.1 allowed scanned fits
                missing (ground arith)) in
            rw e (
              group_changed s s' v (s.sessions.cell p) _ s.current_group s'.group_heap s.group_list
                  done.2 done.0 (rw done.1 v.addresses),
              λ called f found. rw done.1 found,
            )
      ]
    ]

    looked_up : Returns (Onward s) (cmd_getmulticast p args s)
    looked_up =
        let g : Server = record s { group_heap = scratch (grp name []) s.group_heap } in
        let grown = Extends-scratch (grp name []) s.group_heap in
        let v' =
          Grows-ServerValid s g
            (record {
              clients = Extends-refl s.clients;
              sessions = Extends-refl s.sessions;
              groups = grown;
              user_list = refl;
              user_session_list = refl;
              group_list = refl;
              current_group = refl;
            })
            v in
        let (valid, lasts) = send_udp_message-Onward (s.sessions.cell p) _ g v' in
        let held =
          contents-Extends s.group_heap g.group_heap s.group_list v.groups.allocated grown in
        rw (cmd_getmulticast_lem p args name s v.groups block.1 on own.1 allowed scanned fits)
          (valid, λ called f found. lasts called f (rw held found))

  name_fits :
      {name : Bytes} → scan_name max_group_name args ≡ ok (some name) → length name < max_group_name
  name_fits {name} e =
      let (a, rest, word, last) =
        >=>-eq-some (scan_word max_group_name args) (λ w r. matched w) e in
      let same : a ≡ name = cc in scan_word-fits max_group_name args (rw same at word)

  module _ (on : (s.sessions.cell p).logged_in ≡ true) where
    there : s.clients.live (s.sessions.cell p).client ≡ true
    there = (own_account s.clients (s.sessions.cell p) bound on).1

    create_scanned :
        (o : Option Bytes)
        → scan_name max_group_name args ≡ ok o
        → Returns (Onward s) (cmd_createmulticast p args s)
    unfolding cmd_createmulticast
    create_scanned none e =
        simp (load-ok p s.sessions block.1, on, e)
          (send_udp_message-Onward (s.sessions.cell p) _ s v)
    create_scanned (some name) e =
        elim (Bool-cases (is_nonzero (s.clients.cell (s.sessions.cell p).client).group)) [
          | inl allowed ↦ created on allowed name e (name_fits e)
          | inr not_allowed ↦
              simp
                (
                  load-ok p s.sessions block.1,
                  load-ok (s.sessions.cell p).client s.clients there,
                  on,
                  e,
                  not_allowed,
                )
                (send_udp_message-Onward (s.sessions.cell p) _ s v)
        ]

    get_scanned :
        (o : Option Bytes)
        → scan_name max_group_name args ≡ ok o
        → Returns (Onward s) (cmd_getmulticast p args s)
    unfolding cmd_getmulticast
    get_scanned none e =
        simp (load-ok p s.sessions block.1, on, e)
          (send_udp_message-Onward (s.sessions.cell p) _ s v)
    get_scanned (some name) e =
        elim (Bool-cases (is_nonzero (s.clients.cell (s.sessions.cell p).client).group)) [
          | inl allowed ↦ looked_up on allowed name e (name_fits e)
          | inr not_allowed ↦
              simp
                (
                  load-ok p s.sessions block.1,
                  load-ok (s.sessions.cell p).client s.clients there,
                  on,
                  e,
                  not_allowed,
                )
                (send_udp_message-Onward (s.sessions.cell p) _ s v)
        ]

  -- CREATEMULTICAST in a valid state, for a session of the list: no fault where the word fits its
  -- array.
  pub cmd_createmulticast-Onward :
      Returns (λ o. Unit {0}) (scan_name max_group_name args)
      → Returns (Onward s) (cmd_createmulticast p args s)
  unfolding cmd_createmulticast
  cmd_createmulticast-Onward readable = elim (Bool-cases (s.sessions.cell p).logged_in) [
    | inl on ↦ let (o, e, _) = returned _ _ readable in create_scanned on o e
    | inr out ↦
        simp (load-ok p s.sessions block.1, out) (send_udp_message-Onward (s.sessions.cell p) _ s v)
  ]

  -- GETMULTICAST in a valid state, for a session of the list: no fault where the word fits its array.
  pub cmd_getmulticast-Onward :
      Returns (λ o. Unit {0}) (scan_name max_group_name args)
      → Returns (Onward s) (cmd_getmulticast p args s)
  unfolding cmd_getmulticast
  cmd_getmulticast-Onward readable = elim (Bool-cases (s.sessions.cell p).logged_in) [
    | inl on ↦ let (o, e, _) = returned _ _ readable in get_scanned on o e
    | inr out ↦
        simp (load-ok p s.sessions block.1, out) (send_udp_message-Onward (s.sessions.cell p) _ s v)
  ]
