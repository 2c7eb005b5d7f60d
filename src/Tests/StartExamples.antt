-- ===== src/Tests/StartExamples.antt =====
-- The theorems on the start of the server at a network on which every call succeeds.
use rc_project.Base.{refl, arith, Option, some, List, [], ◌∷◌, ◌>>=◌, pos, pos_part, Returns, inr}
use rc_project.Text.{Bytes, codes}
use rc_project.Text.Decimal.{print_int}
use rc_project.Server.{Client}
use rc_project.Server.Network.{Network}
use rc_project.Server.Main.{main}
use rc_project.Server.Safety.{ServerValid}
use rc_project.Server.Safety.Runs.{run_events}
use rc_project.Server.Safety.Start.{Opens, main-run_events}
use rc_project.Tests.{junk_client, junk_session, junk_group}
use rc_project.Tests.Fixtures.{alice, bob}
use rc_project.Tests.SafetyExamples.{events, events-fit}

abbrev net : Network
net = record {
  socket = λ domain service protocol. pos 3;
  bind = λ socket address. pos 0;
  listen = λ socket backlog. pos 0;
  htonl = λ n. n;
}

net-Opens : Opens net
net-Opens = record {
  opened = λ domain service protocol. refl;
  bound = λ socket address. refl;
  listening = λ socket backlog. refl;
}

abbrev open_file : Bytes → Option (List Client)
open_file path = some (alice ∷ bob ∷ [])

main-run_events_example : Returns ServerValid (
    main junk_client junk_session junk_group net open_file
      (codes "server" ∷ print_int (pos 9000) ∷ print_int (pos 9001) ∷ codes "users" ∷ [])
    >>= λ st. run_events (pos_part st.client.socket) events st.server)
main-run_events_example =
    main-run_events junk_client junk_session junk_group net open_file net-Opens (codes "server")
      (codes "users") 9000 9001 (alice ∷ bob ∷ []) (omega arith) (omega arith) (omega arith)
      (omega arith) (omega arith) refl
      ((inr refl, inr refl, inr refl), ((inr refl, inr refl, inr refl), tt)) events events-fit
