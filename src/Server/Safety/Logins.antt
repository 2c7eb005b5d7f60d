-- ===== src/Server/Safety/Logins.antt =====
-- LOGIN of client_commands.c in a valid state.
use mathlib.Core.List.{map}
use rc_project.Base.{
  ◌≡◌, ap, sym, ◌∙◌, arith, List, [], ◌∷◌, Option, none, some, inl, inr, false, true, ok, Returns,
  returned, Option-cases, Bool-cases, All, ◌==◌,
}
use rc_project.Memory.{Ptr, Heap, IsBlock, store, load-ok}
use rc_project.Text.{Bytes}
use rc_project.Text.Scan.{scan_word}
use rc_project.Text.Scan.Fits.{scan_word-fits, >=>-eq-some}
use rc_project.Avl.{elements}
use rc_project.Avl.Order.{find}
use rc_project.Avl.Handle.{AvlTree, cmp_at}
use rc_project.Avl.Handle.Refines.{IsValid, IsValid-agree}
use rc_project.Server.{Server, Client, Session, session_cmp, data_cmp, username_size, password_size}
use rc_project.Server.Users.{users, named}
use rc_project.Server.Users.Persist.{stored}
use rc_project.Server.Commands.{cmd_login, scan_login}
use rc_project.Server.Commands.Lookup.{find-All}
use rc_project.Server.Commands.Login.{is_admitted}
use rc_project.Server.Commands.LoggedIn.{LoggedIn}
use rc_project.Server.Commands.Outcome.{cmd_login-refused, cmd_login-admitted}
use rc_project.Server.Safety.{ServerValid, IsBound, HasFlags, HasPeer, send_udp_message-ServerValid}
use rc_project.Server.Safety.Targets.{searched-ServerValid}

-- the sessions when one of them has got an account
module _ (p q : Ptr) (h : Heap Session) where
  abbrev pub bound : Session
  bound = record (h.cell p) { client = q; logged_in = true }

  pub bound-ip : (r : Ptr) → ((store p bound h).cell r).ip ≡ (h.cell r).ip
  bound-ip r = elim (Bool-cases (r == p)) [
    | inl e ↦ let here : r ≡ p = ground arith in rw e (ap (λ (z : Ptr). (h.cell z).ip) (sym here))
    | inr e ↦ rw e
  ]

  pub bound-port : (r : Ptr) → ((store p bound h).cell r).port ≡ (h.cell r).port
  bound-port r = elim (Bool-cases (r == p)) [
    | inl e ↦ let here : r ≡ p = ground arith in rw e (ap (λ (z : Ptr). (h.cell z).port) (sym here))
    | inr e ↦ rw e
  ]

  bound-cmp : (a b : Ptr) → cmp_at session_cmp h a b ≡ cmp_at session_cmp (store p bound h) a b
  unfolding session_cmp
  bound-cmp a b = rw (bound-ip a, bound-ip b, bound-port a, bound-port b)

  bound-IsValid :
      (tree : AvlTree Session)
      → IsValid session_cmp h tree
      → IsValid session_cmp (store p bound h) tree
  bound-IsValid tree v =
      IsValid-agree session_cmp h (store p bound h) tree v (λ a b _ _. bound-cmp a b) (λ a l. l)

  bound-All :
      (P Q : Session → Type 0)
      → ((x : Session) → P x → Q x)
      → Q bound
      → (xs : List Ptr) → All P (map h.cell xs)
      → All Q (map (store p bound h).cell xs)
  bound-All P Q imp here [] a = tt
  bound-All P Q imp here (r ∷ xs) (px, a) = elim (Bool-cases (r == p)) [
    | inl e ↦ rw e (here, bound-All P Q imp here xs a)
    | inr e ↦ rw e (imp (h.cell r) px, bound-All P Q imp here xs a)
  ]

  bound-HasPeer : (r : Ptr) → HasPeer (h.cell r) → HasPeer ((store p bound h).cell r)
  bound-HasPeer r px = elim (Bool-cases (r == p)) [
    | inl e ↦ let here : r ≡ p = ground arith in rw e (rw here at px)
    | inr e ↦ rw e px
  ]

  bound-peers :
      (xs : List Ptr) → All HasPeer (map h.cell xs) → All HasPeer (map (store p bound h).cell xs)
  bound-peers [] a = tt
  bound-peers (r ∷ xs) (px, a) = (bound-HasPeer r px, bound-peers xs a)

flags_of_stored : (xs : List Client) → All HasFlags (map stored xs) → All HasFlags xs
flags_of_stored [] a = tt
flags_of_stored (x ∷ xs) (h, a) = (h, flags_of_stored xs a)

flags-stored : (xs : List Client) → All HasFlags xs → All HasFlags (map stored xs)
flags-stored [] a = tt
flags-stored (x ∷ xs) (h, a) = (h, flags-stored xs a)

module _ (p : Ptr) (c : Client) (s s' : Server) (v : ServerValid s) (l : LoggedIn p c s s') where
  still_bound : (x : Session) → IsBound s.clients x → IsBound s'.clients x
  still_bound x (inl out) = inl out
  still_bound x (inr (block, same)) =
      inr (l.blocks x.client block, l.addresses x.client block ∙ same)

  now_bound : IsBound s'.clients (bound p (s'.sessions.cell p).client s.sessions)
  now_bound = inr (l.in_use, ap (λ (k : Client). k.ip) l.account ∙ l.same_ip)

  pub LoggedIn-ServerValid : ServerValid s'
  LoggedIn-ServerValid = record {
    accounts = l.valid;
    sessions =
        rw (ap (λ (t : Server). t.user_session_list) l.rest, l.session)
          (bound-IsValid p (s'.sessions.cell p).client s.sessions s.user_session_list v.sessions);
    groups = rw l.rest v.groups;
    bound =
        rw (ap (λ (t : Server). t.user_session_list) l.rest, l.session)
          (bound-All p (s'.sessions.cell p).client s.sessions (IsBound s.clients)
            (IsBound s'.clients) still_bound now_bound (elements s.user_session_list.root) v.bound);
    peers =
        rw (ap (λ (t : Server). t.user_session_list) l.rest, l.session)
          (bound-peers p (s'.sessions.cell p).client s.sessions (elements s.user_session_list.root)
            v.peers);
    flags = flags_of_stored (users s') (rw l.accounts (flags-stored (users s) v.flags));
    persisted = rw (l.accounts, l.list) v.persisted;
    addresses = rw l.rest v.addresses;
  }

module _ (p : Ptr) (args : Bytes) (s : Server) (v : ServerValid s)
    (block : IsBlock s.sessions p) where
  login_scanned :
      (o : Option (Bytes × Bytes))
      → scan_login args ≡ ok o
      → (s.sessions.cell p).logged_in ≡ false
      → Returns ServerValid (cmd_login p args s)
  unfolding cmd_login
  login_scanned none e out =
      simp (load-ok p s.sessions block.1, out, e)
        (send_udp_message-ServerValid (s.sessions.cell p) _ s v)
  login_scanned (some (username, password)) e out =
      let (a, rest, word, last) = >=>-eq-some (scan_word username_size args) _ e in
      let (b, rest', word', last') = >=>-eq-some (scan_word password_size rest) _ last in
      let same : a ≡ username = cc in
      let fits = scan_word-fits username_size args (rw same at word) in
      elim (Bool-cases
        (is_admitted (find data_cmp (named username) (users s)) (s.sessions.cell p) password)) [
          | inr refused ↦
              rw
                (cmd_login-refused p args s v.accounts block.1 out username password e fits refused)
                (send_udp_message-ServerValid (s.sessions.cell p) _ _
                  (searched-ServerValid username s v fits))
          | inl admitted ↦ elim (Option-cases (find data_cmp (named username) (users s))) [
            | inl missing ↦
                let bad : is_admitted none (s.sessions.cell p) password ≡ true =
                  rw missing at admitted in
                cc
            | inr (c, there) ↦
                let (f, g, k) =
                  find-All data_cmp HasFlags (named username) (users s) v.flags there in
                let (s', r, l) = returned _ (cmd_login p args s) (
                  cmd_login-admitted p args s v.accounts block.1 out username password e fits there
                    (rw there at admitted) f g k) in
                rw r (LoggedIn-ServerValid p c s s' v l)
          ]
        ]

  -- LOGIN in a valid state: no fault where the words fit their arrays.
  pub cmd_login-ServerValid :
      Returns (λ o. Unit {0}) (scan_login args) → Returns ServerValid (cmd_login p args s)
  unfolding cmd_login
  cmd_login-ServerValid readable = elim (Bool-cases (s.sessions.cell p).logged_in) [
    | inl on ↦
        simp (load-ok p s.sessions block.1, on)
          (send_udp_message-ServerValid (s.sessions.cell p) _ s v)
    | inr out ↦ let (o, e, _) = returned _ _ readable in login_scanned o e out
  ]
