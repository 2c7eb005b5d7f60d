-- ===== src/Server/Commands/LoggedIn.antt =====
-- What a login that succeeds makes of the state.
use mathlib.Core.List.{map}
use rc_project.Server.Users.Persist.{stored}
use rc_project.Base.{
  List, Bool-cases, sym, append_assoc, inl, inr, ◌<◌, ◌≡◌, ◌≢◌, refl, ap, arith, [], ◌∷◌, ◌++◌, ok,
  true, false, ◌==◌,
}
use rc_project.Memory.{Ptr, store, IsBlock}
use rc_project.Text.{Bytes, codes, snprintf}
use rc_project.Text.Compare.{eq_of_strcmp}
use rc_project.Text.Decimal.{print_int}
use rc_project.Avl.{elements}
use rc_project.Avl.First.{FirstAt, FirstAt-same, FirstAt-agree}
use rc_project.Server.{Server, Client, Session, data_cmp, send_udp_message, datagram, buffer_size}
use rc_project.Server.Users.{users, named, UsersValid}
use rc_project.Server.Commands.{answer}
use rc_project.Server.Commands.Moved.{moved-IsValid, moved-contents}
use rc_project.Server.Commands.Login.{permissions, session_after, greeting}

-- what a login to the account `c` makes of the state
pub record LoggedIn (p : Ptr) (c : Client) (s s' : Server) : Type 0 where
  pub logged_in : (s'.sessions.cell p).logged_in ≡ true
  pub in_use : IsBlock s'.clients (s'.sessions.cell p).client
  pub account :
      s'.clients.cell (s'.sessions.cell p).client ≡ record c { port = (s.sessions.cell p).port }
  pub same_ip : c.ip ≡ (s.sessions.cell p).ip
  pub session :
      s'.sessions
      ≡ store p
          (record (s.sessions.cell p) { client = (s'.sessions.cell p).client; logged_in = true })
          s.sessions
  pub other_sessions : (r : Ptr) → r ≢ p → s'.sessions.cell r ≡ s.sessions.cell r
  pub valid : UsersValid s'
  pub accounts : map stored (users s') ≡ map stored (users s)
  pub list : s'.user_list ≡ s.user_list
  pub blocks : (r : Ptr) → IsBlock s.clients r → IsBlock s'.clients r
  pub addresses : (r : Ptr) → IsBlock s.clients r → (s'.clients.cell r).ip ≡ (s.clients.cell r).ip
  pub kept :
      (r : Ptr) → IsBlock s.clients r → stored (s'.clients.cell r) ≡ stored (s.clients.cell r)
  pub others :
      (r : Ptr)
      → r ≢ (s'.sessions.cell p).client
      → IsBlock s.clients r
      → s'.clients.cell r ≡ s.clients.cell r
  pub owner :
      FirstAt data_cmp c s'.clients.cell (s'.sessions.cell p).client (elements s.user_list.root)
  pub rest : s' ≡ record s { clients = s'.clients; sessions = s'.sessions; sent = s'.sent }
  pub messages :
      (a b d : Bytes) × (answer c.client_server ≡ ok a)
      × (answer c.p2p ≡ ok b)
      × (answer c.group ≡ ok d)
      × (s'.sent
          ≡ s.sent
            ++ (datagram
                  (s.sessions.cell p).socket
                  (s.sessions.cell p).sock
                  (codes "Login successfully\n")
                ∷ datagram
                    (s.sessions.cell p).socket
                    (s.sessions.cell p).sock
                    (snprintf buffer_size (print_int (s.sessions.cell p).port ++ codes "\n"))
                ∷ datagram
                    (s.sessions.cell p).socket
                    (s.sessions.cell p).sock
                    (snprintf buffer_size (permissions a b d))
                ∷ []))

-- the first record with a name is the first one with its own key
pub key_of_name :
    (username : Bytes) (q : Ptr) (cell : Ptr → Client) (ps : List Ptr)
    → FirstAt data_cmp (named username) cell q ps
    → FirstAt data_cmp (cell q) cell q ps
unfolding data_cmp
key_of_name username q cell ps first =
    let hit = FirstAt-same data_cmp (named username) cell q ps first in
    let same : username ≡ (cell q).username =
      eq_of_strcmp username (cell q).username (ground (arith, hit)) (ground (arith, hit)) in
    FirstAt-agree data_cmp (named username) (cell q) cell cell q ps (λ x. rw same refl) first

module _ (p q : Ptr) (password : Bytes) (s : Server) (live : s.sessions.live p ≡ true)
    (block : s.clients.live q ≡ true) (v : UsersValid s)
    (same : (s.sessions.cell p).ip ≡ (s.clients.cell q).ip) (a b d : Bytes)
    (ea : answer (s.clients.cell q).client_server ≡ ok a)
    (eb : answer (s.clients.cell q).p2p ≡ ok b) (ed : answer (s.clients.cell q).group ≡ ok d) where
  unfoldable pub final : Server
  unfolding send_udp_message
  final =
      send_udp_message (session_after p q password s live block) (permissions a b d)
        (greeting p q password s live block)

  here_q : final.sessions.cell p ≡ session_after p q password s live block
  unfolding final
  here_q = ground arith

  account_final :
      final.clients.cell q ≡ record (s.clients.cell q) { port = (s.sessions.cell p).port }
  unfolding final
  account_final = let here : (q == q) ≡ true = ground arith in rw (here, same)

  address_final : (r : Ptr) → (final.clients.cell r).ip ≡ (s.clients.cell r).ip
  unfolding final
  address_final r = elim (Bool-cases (r == q)) [
    | inl e ↦
        let here : r ≡ q = ground arith in
        rw (e, same) (ap (λ (z : Ptr). (s.clients.cell z).ip) (sym here))
    | inr e ↦ rw e
  ]

  -- nothing but a port changes
  stored_final : (r : Ptr) → stored (final.clients.cell r) ≡ stored (s.clients.cell r)
  unfolding final
  stored_final r = elim (Bool-cases (r == q)) [
    | inl e ↦
        let here : r ≡ q = ground arith in
        rw (e, same) (ap (λ (z : Ptr). stored (s.clients.cell z)) (sym here))
    | inr e ↦ rw e
  ]

  -- the records but that of `q` are as they were
  others_final : (r : Ptr) → r ≢ q → final.clients.cell r ≡ s.clients.cell r
  unfolding final
  others_final r ne = let other : (r == q) ≡ false = ground arith in rw other

  owner_final :
      FirstAt data_cmp (s.clients.cell q) s.clients.cell q (elements s.user_list.root)
      → FirstAt data_cmp (s.clients.cell q) final.clients.cell q (elements s.user_list.root)
  unfolding data_cmp
  owner_final first =
      FirstAt-agree data_cmp (s.clients.cell q) (s.clients.cell q) s.clients.cell final.clients.cell
        q (elements s.user_list.root)
        (λ x. rw (ap (λ (k : Client). k.username) (stored_final x)) refl) first

  pub final-LoggedIn :
      q < s.clients.next
      → FirstAt data_cmp (s.clients.cell q) s.clients.cell q (elements s.user_list.root)
      → LoggedIn p (s.clients.cell q) s final
  final-LoggedIn below first = record {
    kept = λ r b. stored_final r;
    others = λ r ne b. others_final r (rw here_q at ne);
    owner = rw here_q (owner_final first);
    logged_in = ap (λ (t : Session). t.logged_in) here_q;
    in_use = rw here_q (unfold final in (below, block));
    same_ip = sym same;
    session = rw here_q (unfold final in refl);
    blocks = λ r b. unfold final in b;
    addresses = λ r b. address_final r;
    rest = unfold final in refl;
    account = rw here_q account_final;
    other_sessions = λ r ne. unfold final in ground arith;
    valid =
        unfold final in
        moved-IsValid q (s.sessions.cell p).port (s.sessions.cell p).ip s.clients s.user_list v;
    accounts =
        unfold final in
        moved-contents q (s.sessions.cell p).port (s.sessions.cell p).ip s.clients same s.user_list;
    list = unfold final in refl;
    messages = (a, b, d, ea, eb, ed, unfold final in simp append_assoc);
  }
