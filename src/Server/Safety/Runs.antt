-- ===== src/Server/Safety/Runs.antt =====
-- Any run of the server: its start, and then the datagrams of the clients and the commands of the
-- administrator, in any order.
use rc_project.Base.{ap, sym, ◌∙◌, ℕ, List, [], ◌∷◌, ok, Run, ◌>>=◌, Returns, returned, All, ℤ}
use mathlib.Core.List.{map}
use mathlib.Core.List.Perm
use rc_project.Text.{Bytes}
use rc_project.Avl.{elements}
use rc_project.Avl.Order.{insert_sorted, All-insert_sorted}
use rc_project.Avl.Sorting.{insert_all}
use rc_project.Server.{Server, Client, Session, Group, data_cmp}
use rc_project.Server.Admin.{run_command}
use rc_project.Server.Boot.{boot}
use rc_project.Server.Listen.{Received, udp_server_worker}
use rc_project.Server.Users.Restart.{boot-users}
use rc_project.Server.Users.Persist.{stored, map-stored-insert_all}
use rc_project.Server.Safety.{ServerValid, HasFlags}
use rc_project.Server.Safety.Datagrams.{ReceivedFits, udp_server_worker-ServerValid}
use rc_project.Server.Safety.Administration.{TypedFits, run_command-ServerValid}

-- what one of the two threads does next: a datagram that arrives, or a command that the
-- administrator types, with the value of `exit` before it
pub data Event : Type 0 where
  received : Received → Event
  typed : (socket : ℕ) → Bytes → (exit : ℤ) → Event

unfoldable pub run_event : (socket : ℕ) → Event → Server → Run Server
run_event socket (received r) s = udp_server_worker socket r s
run_event socket (typed admin text exit) s = do (exit', s') ← run_command admin text exit s; ok s'

unfoldable pub run_events : (socket : ℕ) → List Event → Server → Run Server
unfolding run_event
run_events socket [] s = ok s
run_events socket (e ∷ es) s = do s' ← run_event socket e s; run_events socket es s'

-- the datagram or the command fits
abbrev pub EventFits : Event → Type 0
EventFits (received r) = ReceivedFits r
EventFits (typed socket text exit) = TypedFits text

run_event-ServerValid :
    (socket : ℕ) (e : Event) (s : Server)
    → ServerValid s
    → EventFits e
    → Returns ServerValid (run_event socket e s)
unfolding run_event
run_event-ServerValid socket (received r) s v fits = udp_server_worker-ServerValid socket r s v fits
run_event-ServerValid socket (typed admin text exit) s v fits =
    let ((exit', s'), e, v') =
      returned _ (run_command admin text exit s)
        (run_command-ServerValid admin s v text exit fits) in
    rw e v'

-- From a valid state, any datagrams and commands of the administrator that fit, in any order, are
-- served without a fault, to a valid state: valid trees of blocks in use, no
-- session that points to anything but an account's record with the session's address, and a records
-- file that is in step with the accounts.
pub run_events-ServerValid :
    (socket : ℕ) (es : List Event) (s : Server)
    → ServerValid s
    → All EventFits es
    → Returns ServerValid (run_events socket es s)
unfolding run_events
run_events-ServerValid socket [] s v fits = v
run_events-ServerValid socket (e ∷ es) s v (fit, fits) =
    let (s', f, v') = returned _ (run_event socket e s) (run_event-ServerValid socket e s v fit) in
    rw f (run_events-ServerValid socket es s' v' fits)

insert_all-HasFlags :
    (acc xs : List Client)
    → All HasFlags acc
    → All HasFlags xs
    → All HasFlags (insert_all data_cmp acc xs)
unfolding insert_all
insert_all-HasFlags acc [] a h = a
insert_all-HasFlags acc (x ∷ xs) a (hx, h) =
    insert_all-HasFlags (insert_sorted data_cmp x acc) xs
      (All-insert_sorted data_cmp HasFlags x acc hx a) h

module _ (junk : Client) (junk_session : Session) (junk_group : Group) where
  pub boot-ServerValid :
      (records : List Client)
      → All HasFlags records
      → Returns ServerValid (boot junk junk_session junk_group records)
  unfolding elements
  boot-ServerValid records flags =
      let (s, e, (valid, holds, file, same)) =
        returned _ (boot junk junk_session junk_group records)
          (boot-users junk junk_session junk_group records) in
      rw e (record {
        accounts = valid;
        sessions = rw same (record { flat = tt; ordered = tt; allocated = tt });
        groups = rw same (record { flat = tt; ordered = tt; allocated = tt });
        bound = rw same tt;
        peers = rw same tt;
        flags = rw holds (insert_all-HasFlags [] records tt flags);
        persisted =
            ap (λ l. insert_all data_cmp [] (map stored l)) file
            ∙ sym (ap (map stored) holds ∙ map-stored-insert_all [] records);
        addresses = rw same (Perm.refl []);
      })

  -- A server that is started on a records file whose permissions are 0 or 1 serves any datagrams and
  -- commands of the administrator that fit, in any order: it never faults, and
  -- is in a valid state afterwards.
  pub boot-run_events :
      (socket : ℕ) (records : List Client) (es : List Event)
      → All HasFlags records
      → All EventFits es
      → Returns ServerValid (boot junk junk_session junk_group records >>= run_events socket es)
  boot-run_events socket records es flags fits =
      let (s, e, v) =
        returned _ (boot junk junk_session junk_group records) (boot-ServerValid records flags) in
      rw e (run_events-ServerValid socket es s v fits)
