-- ===== src/Connection/Events/Tests.antt =====
-- The events of a connection in use, after some calls.
use zephyr_server.Common.{◌≡◌, refl, true, false, List, [], ◌∷◌, arith}
use zephyr_server.Connection.{using}
use zephyr_server.Connection.Events.{
  Link, on_app_send, Call, send, disconnect, recv, net_run, app_run, steps,
}
use zephyr_server.Connection.Events.Wakeups.{Counted}
use zephyr_server.Connection.Events.Silence.{refused-silences}

-- A connection after `OnInit` and `OnConnected`.
abbrev fresh : Link
fresh = record {
  app_seq_num = 0;
  net_confirm_num = 0;
  net_seq_num = 0;
  app_confirm_num = 0;
  net_blocked = false;
  app_disconnect = false;
  net_disconnect = false;
  state = using;
  app_events = [];
  net_events = [];
}

fresh-Counted : Counted fresh
fresh-Counted = record {
  to_net = omega arith;
  to_app = omega arith;
  app_word = omega arith;
  net_word = omega arith;
}

abbrev calls : List Call
calls =
    send true
    ∷ recv true true
    ∷ net_run true true
    ∷ send true
    ∷ app_run true
    ∷ net_run true false
    ∷ []

refused-silences_example :
    (steps
      (send true ∷ net_run true true ∷ disconnect true ∷ [])
      (on_app_send false fresh)).app_events
    ≡ []
refused-silences_example =
    refused-silences fresh (send true ∷ net_run true true ∷ disconnect true ∷ []) fresh-Counted refl
      tt
