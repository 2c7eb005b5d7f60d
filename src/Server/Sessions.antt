-- ===== src/Server/Sessions.antt =====
-- init_client_session of client/client.c as an operation on the list of sessions.
use mathlib.Core.Path.{ap₂}
use rc_project.Base.{
  map-eq-some, map-eq-none, ◌≡◌, ◌≢◌, refl, ap, sym, ◌∙◌, arith, List, [], ◌∷◌, none, some, ok, ℕ,
  pos, All, All-imp, All-zip, Returns, returned, false, true, is_neg, is_pos, ℤ, negsuc,
}
use rc_project.Memory.{
  Ptr, Heap, malloc, free, IsBlock, Extends-IsBlock, Extends-malloc, scratch, Extends-scratch,
}
use rc_project.Avl.{elements}
use rc_project.Avl.Order.{IsComparator, find, insert_sorted}
use rc_project.Avl.Handle.{AvlTree, avl_get, avl_add, avl_ok, cmp_at}
use rc_project.Avl.Handle.Refines.{
  IsValid, contents, IsValid-Extends, contents-Extends, avl_lookup-contents, avl_lookup-find,
  avl_get-ok,
}
use rc_project.Avl.Handle.Add.{avl_add_new}
use rc_project.Server.{Server, Session, SockAddr, session_cmp, inet_ntop}
use rc_project.Server.Compare.{session_cmp-IsComparator}
use rc_project.Server.Connect.{init_client_session}
use rc_project.Server.Users.{apart_of_allocated}
use rc_project.Server.Commands.Lookup.{find-All}

neg_or_pos : (n : ℤ) → is_pos n ≡ is_neg n → (is_neg n ≡ false) × (is_pos n ≡ false)
neg_or_pos (pos n) e = ground arith
neg_or_pos (negsuc n) e = ground arith

module _ {ℓ} {A : Type ℓ} (cmp : A → A → ℤ) (c : IsComparator cmp) where
  pub find-insert_sorted :
      (x : A) (xs : List A) → find cmp x xs ≡ none → find cmp x (insert_sorted cmp x xs) ≡ some x
  unfolding find insert_sorted
  find-insert_sorted x [] e = ground (arith, neg_or_pos (cmp x x) (c.flip x x))
  find-insert_sorted x (y ∷ ys) e =
      ground (arith, neg_or_pos (cmp x x) (c.flip x x), find-insert_sorted x ys)

-- the sessions in memory, by address and port
abbrev pub sessions_of : Server → List Session
sessions_of s = contents s.sessions s.user_session_list

abbrev pub SessionsValid : Server → Type 0
SessionsValid s = IsValid session_cmp s.sessions s.user_session_list

-- the session that a first datagram from `sock` gets
abbrev pub first_session : (junk : Ptr) → SockAddr → ℕ → Session
first_session junk sock socket = record {
  client = junk;
  sock = sock;
  ip = inet_ntop sock.sin_addr;
  port = pos sock.sin_port;
  socket = socket;
  logged_in = false;
}

-- a record that the list has is found in a block of its tree
pub avl_get-some :
    (h : Heap Session) (tree : AvlTree Session) (x : Ptr) {P : Ptr → Type 0} {r : Session}
    → IsValid session_cmp h tree
    → All P (elements tree.root)
    → h.live x ≡ true
    → find session_cmp (h.cell x) (contents h tree) ≡ some r
    → (q : Ptr) × (avl_get session_cmp h tree x ≡ ok (some q)) × P q × (h.cell q ≡ r)
avl_get-some h tree x {P} v a live e =
    let (q, got, held) =
      map-eq-some h.cell _
        (avl_lookup-contents session_cmp session_cmp-IsComparator h tree x v ∙ e) in
    (
      q,
      avl_get-ok session_cmp session_cmp-IsComparator h tree x v live ∙ ap ok got,
      find-All (cmp_at session_cmp h) P x (elements tree.root) a
          (sym (avl_lookup-find session_cmp session_cmp-IsComparator h tree x v) ∙ got),
      held,
    )

pub avl_get-none :
    (h : Heap Session) (tree : AvlTree Session) (x : Ptr)
    → IsValid session_cmp h tree
    → h.live x ≡ true
    → find session_cmp (h.cell x) (contents h tree) ≡ none
    → avl_get session_cmp h tree x ≡ ok none
avl_get-none h tree x v live e =
    avl_get-ok session_cmp session_cmp-IsComparator h tree x v live
    ∙ ap ok (
        map-eq-none h.cell _
          (avl_lookup-contents session_cmp session_cmp-IsComparator h tree x v ∙ e))

module _ (junk : Ptr) (sock : SockAddr) (socket : ℕ) (s : Server) (v : SessionsValid s) where
  abbrev local : Session
  local = first_session junk sock socket

  abbrev h : Heap Session
  h = (malloc local s.sessions).1

  h-IsValid : IsValid session_cmp h s.user_session_list
  h-IsValid =
      IsValid-Extends session_cmp s.sessions h s.user_session_list v
        (Extends-malloc local s.sessions)

  h-contents : contents h s.user_session_list ≡ sessions_of s
  h-contents =
      contents-Extends s.sessions h s.user_session_list v.allocated
        (Extends-malloc local s.sessions)

  h-cell : h.cell s.sessions.next ≡ local
  h-cell = ground arith

  h-live : h.live s.sessions.next ≡ true
  h-live = ground arith

  h-apart : All (λ p. p ≢ s.sessions.next) (elements s.user_session_list.root)
  h-apart = apart_of_allocated s.sessions (elements s.user_session_list.root) v.allocated

  h-find :
      find session_cmp (h.cell s.sessions.next) (contents h s.user_session_list)
      ≡ find session_cmp local (sessions_of s)
  h-find = rw (h-cell, h-contents)

  -- A datagram from an address and port that a session has: that session is returned, in a block in
  -- use, and the list is valid and holds the sessions it held.
  pub init_client_session-known :
      {r : Session}
      → find session_cmp (first_session junk sock socket) (sessions_of s) ≡ some r
      → Returns
          (λ (found, s').
            (p : Ptr) × (found ≡ some p)
            × IsBlock s'.sessions p
            × (s'.sessions.cell p ≡ r)
            × SessionsValid s'
            × (sessions_of s' ≡ sessions_of s)
            × (s' ≡ record s { sessions = s'.sessions }))
          (init_client_session junk sock socket s)
  unfolding init_client_session
  init_client_session-known there =
      let (q, got, block, held) =
        avl_get-some h s.user_session_list s.sessions.next h-IsValid v.allocated h-live
          (h-find ∙ there) in
      let after = scratch local s.sessions in
      let e = Extends-scratch local s.sessions in
      rw (init_client_session, got)
        (
          q,
          refl,
          Extends-IsBlock q e block,
          held,
          IsValid-Extends session_cmp s.sessions after s.user_session_list v e,
          contents-Extends s.sessions after s.user_session_list v.allocated e,
          refl,
        )

  added :
      find session_cmp local (sessions_of s) ≡ none
      → (h' : Heap Session) × (tree : AvlTree Session) × (avl_add session_cmp h s.user_session_list
            s.sessions.next false false
          ≡ ok (avl_ok, h', tree))
        × IsValid session_cmp h' tree
        × (contents h' tree ≡ insert_sorted session_cmp local (sessions_of s))
        × (h'.cell s.sessions.next ≡ local)
        × (h'.live s.sessions.next ≡ true)
        × All (λ p. p ≢ s.sessions.next) (elements tree.root)
  added missing =
      let ((code, h', tree), e, done) =
        returned _ (avl_add session_cmp h s.user_session_list s.sessions.next false false) (
          avl_add_new session_cmp session_cmp-IsComparator h s.user_session_list s.sessions.next
            false false h-IsValid (omega arith) h-live h-apart (h-find ∙ missing)) in
      (
        h',
        tree,
        e ∙ ap (λ k. ok (k, h', tree)) done.0,
        done.1,
        done.2 ∙ ap₂ (insert_sorted session_cmp) h-cell h-contents,
        done.4 s.sessions.next (omega arith) ∙ h-cell,
        done.8,
        done.7,
      )

  -- what is left of a valid list when a block that is not in it is freed
  freed-IsValid :
      (h' : Heap Session) (tree : AvlTree Session)
      → IsValid session_cmp h' tree
      → All (λ p. IsBlock (free s.sessions.next h') p) (elements tree.root)
      → IsValid session_cmp (free s.sessions.next h') tree
  freed-IsValid h' tree v' a = record { flat = v'.flat; ordered = v'.ordered; allocated = a }

  still-IsBlock :
      (h' : Heap Session) (p : Ptr)
      → IsBlock h' p × (p ≢ s.sessions.next)
      → IsBlock (free s.sessions.next h') p
  still-IsBlock h' p ((below, live), ne) = (below, ground arith)

  -- A datagram from an address and port that no session has: a session that is not logged in, with
  -- that address and port, gets its place in the list and is returned, in a block in use. The list is
  -- valid again.
  pub init_client_session-first :
      find session_cmp (first_session junk sock socket) (sessions_of s) ≡ none
      → Returns
          (λ (found, s').
            (p : Ptr) × (found ≡ some p)
            × IsBlock s'.sessions p
            × (s'.sessions.cell p ≡ first_session junk sock socket)
            × SessionsValid s'
            × (sessions_of s'
                ≡ insert_sorted session_cmp (first_session junk sock socket) (sessions_of s))
            × (s' ≡ record s { sessions = s'.sessions; user_session_list = s'.user_session_list }))
          (init_client_session junk sock socket s)
  unfolding init_client_session
  init_client_session-first missing =
      let (h', tree, e, v', holds, cell, live, apart) = added missing in
      let all =
        All-imp (still-IsBlock h') (elements tree.root)
          (All-zip _ _ (elements tree.root) v'.allocated apart) in
      let found : find session_cmp (h'.cell s.sessions.next) (contents h' tree) ≡ some local =
        ap₂ (find session_cmp) cell holds
        ∙ find-insert_sorted session_cmp session_cmp-IsComparator local (sessions_of s) missing in
      let (q, got, block, held) = avl_get-some h' tree s.sessions.next v' all live found in
      rw
        (
          init_client_session,
          avl_get-none h s.user_session_list s.sessions.next h-IsValid h-live (h-find ∙ missing),
          e,
          got,
        )
        (q, refl, block, held, freed-IsValid h' tree v' all, holds, refl)
