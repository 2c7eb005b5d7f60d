-- ===== src/Server/Commands/Outcome.antt =====
-- What LOGIN of client_commands.c does, by the name, the password and the address.
use mathlib.Core.List.{map}
use rc_project.Avl.Handle.Refines.{IsValid-Extends, contents-Extends}
use rc_project.Server.Users.Persist.{stored}
use rc_project.Base.{
  sym, Option-cases, inl, inr, ◌<◌, ◌≡◌, refl, ap, ◌∙◌, arith, some, ok, length, true, false,
  Returns,
}
use rc_project.Memory.{Ptr, Extends-IsBlock, Extends-scratch, load-ok}
use rc_project.Text.{Bytes}
use rc_project.Text.Compare.{eq_of_not_nonzero}
use rc_project.Avl.{elements}
use rc_project.Avl.Order.{find}
use rc_project.Server.{Server, Client, data_cmp, username_size, send_udp_message}
use rc_project.Server.Users.{users, named, UsersValid}
use rc_project.Server.Commands.{answer, cmd_login, scan_login}
use rc_project.Server.Commands.Lookup.{
  client_arg, searched, find_client-some, find_client-none, find_client-FirstAt,
}
use rc_project.Server.Commands.Login.{
  refusal, is_admitted, login_found-refused, login_found-admitted, tests, IsFlag, answer-ok,
}
use rc_project.Server.Commands.LoggedIn.{LoggedIn, key_of_name, final, final-LoggedIn}

module _ (p : Ptr) (args : Bytes) (s : Server) (v : UsersValid s) (live : s.sessions.live p ≡ true)
    (out : (s.sessions.cell p).logged_in ≡ false) (username password : Bytes)
    (scanned : scan_login args ≡ ok (some (username, password)))
    (fits : length username < username_size) where
  -- With valid accounts, a session that is not logged in, and arguments that are two words, a user
  -- name that fits its array and a password: a login with a name that no account has, from an
  -- address that is not the account's, or with a wrong password, is refused with the answer that
  -- says so, and nothing else happens but that a block for the search is allocated and freed.
  pub cmd_login-refused :
      is_admitted (find data_cmp (named username) (users s)) (s.sessions.cell p) password ≡ false
      → cmd_login p args s
        ≡ ok (
            send_udp_message
              (s.sessions.cell p)
              (refusal (find data_cmp (named username) (users s)) (s.sessions.cell p))
              (searched username s v fits))
  unfolding cmd_login
  cmd_login-refused refused = elim (Option-cases (find data_cmp (named username) (users s))) [
    | inl missing ↦
        simp
          (
            load-ok p s.sessions live,
            out,
            scanned,
            find_client-none username s v fits missing,
            missing,
          )
          refl
    | inr (c, there) ↦
        let (q, e, block, held) = find_client-some username s v fits there in
        let s1 = searched username s v fits in
        let e1 = Extends-scratch (client_arg username s v fits) s.clients in
        let cell : s1.clients.cell q ≡ c = e1.cells q block.0 ∙ held in
        simp (load-ok p s.sessions live, out, scanned, e, there)
          (login_found-refused p q password s1 live (e1.lives q block.0 ∙ block.1)
              (rw (cell) (rw there at refused))
            ∙ ap
                (λ k.
                  ok (
                    send_udp_message (s.sessions.cell p) (refusal (some k) (s.sessions.cell p)) s1))
                cell)
  ]

  LoggedIn-searched :
      (c1 c : Client) (f : Server)
      → LoggedIn p c1 (searched username s v fits) f
      → c1 ≡ c
      → LoggedIn p c s f
  LoggedIn-searched c1 c f l e = record {
    kept = λ r b.
        l.kept r (Extends-IsBlock r (Extends-scratch (client_arg username s v fits) s.clients) b)
        ∙ ap stored ((Extends-scratch (client_arg username s v fits) s.clients).cells r b.0);
    others = λ r ne b.
        l.others r ne
          (Extends-IsBlock r (Extends-scratch (client_arg username s v fits) s.clients) b)
        ∙ (Extends-scratch (client_arg username s v fits) s.clients).cells r b.0;
    owner = rw (sym e) l.owner;
    logged_in = l.logged_in;
    in_use = l.in_use;
    same_ip = ap (λ (k : Client). k.ip) (sym e) ∙ l.same_ip;
    session = l.session;
    blocks = λ r b.
        l.blocks r (Extends-IsBlock r (Extends-scratch (client_arg username s v fits) s.clients) b);
    addresses = λ r b.
        l.addresses r
          (Extends-IsBlock r (Extends-scratch (client_arg username s v fits) s.clients) b)
        ∙ ap (λ (k : Client). k.ip)
            ((Extends-scratch (client_arg username s v fits) s.clients).cells r b.0);
    rest = l.rest;
    account = l.account ∙ ap (λ (k : Client). record k { port = (s.sessions.cell p).port }) e;
    other_sessions = l.other_sessions;
    valid = l.valid;
    accounts =
        l.accounts
        ∙ ap (map stored) (
            contents-Extends s.clients (searched username s v fits).clients s.user_list v.allocated
              (Extends-scratch (client_arg username s v fits) s.clients));
    list = l.list;
    messages =
        let (a, b, d, ea, eb, ed, sent) = l.messages in
        (
          a,
          b,
          d,
          ap (λ (k : Client). answer k.client_server) (sym e) ∙ ea,
          ap (λ (k : Client). answer k.p2p) (sym e) ∙ eb,
          ap (λ (k : Client). answer k.group) (sym e) ∙ ed,
          sent,
        );
  }

  -- With valid accounts, a session that is not logged in, and arguments that are two words, a user
  -- name that fits its array and a password: a login with the name and the password of an account,
  -- from its address, where the flags of the account are 0 or 1, logs the session in. The session
  -- then points to the account's record, which has got the port of the session and is otherwise as
  -- it was. No other record of an account that is in use changes, nor any other session, nor the
  -- file. Three messages are sent: that the login succeeded, the port, and the three permissions
  -- of the account in words.
  pub cmd_login-admitted :
      {c : Client}
      → find data_cmp (named username) (users s) ≡ some c
      → is_admitted (some c) (s.sessions.cell p) password ≡ true
      → IsFlag c.client_server
      → IsFlag c.p2p
      → IsFlag c.group
      → Returns (LoggedIn p c s) (cmd_login p args s)
  unfolding cmd_login final
  cmd_login-admitted {c} there admitted fa fb fd =
      let (q, e, block, held) = find_client-some username s v fits there in
      let s1 = searched username s v fits in
      let e1 = Extends-scratch (client_arg username s v fits) s.clients in
      let cell : s1.clients.cell q ≡ c = e1.cells q block.0 ∙ held in
      let live1 : s1.clients.live q ≡ true = e1.lives q block.0 ∙ block.1 in
      let (a, ea) = answer-ok c.client_server fa in
      let (b, eb) = answer-ok c.p2p fb in
      let (d, ed) = answer-ok c.group fd in
      let first =
        key_of_name username q s1.clients.cell (elements s.user_list.root)
          (find_client-FirstAt username s v fits q e) in
      let done =
        login_found-admitted p q password s1 live live1 a b d (rw cell admitted) (rw cell ea)
          (rw cell eb) (rw cell ed) in
      let v1 = IsValid-Extends data_cmp s.clients s1.clients s.user_list v e1 in
      let same =
        eq_of_not_nonzero (s.sessions.cell p).ip (s1.clients.cell q).ip
          (tests p q password s1 live live1 (rw cell admitted)).0 in
      simp (load-ok p s.sessions live, out, scanned, e)
        (rw done (
          LoggedIn-searched (s1.clients.cell q) c _
            (final-LoggedIn p q password s1 live live1 v1 same a b d (rw cell ea) (rw cell eb)
              (rw cell ed) (omega (arith, block.0, e1.grows)) first)
            cell))
