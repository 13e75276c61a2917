-- ===== src/Tests/Verdicts.antt =====
-- The goroutines of one WebSocket at concrete packets: api/websocket.go and api/ws_client.go.
use ezproxy.Base.{inl, inr, ◌≡◌, refl, true, false, some, [], ◌∷◌, arith, All}
use ezproxy.Base.Maps.{lookup, insert}
use ezproxy.Handler.Flags.{is_injected}
use ezproxy.Api.WebSocket.{
  Socket, allow, wait, send_pkt, number_packet, await_verdict, handle_recv_filter,
  matches_network_filter,
}
use ezproxy.Api.WebSocket.Client.{act_filter, settle_verdict, handle_client_action}
use ezproxy.Api.WebSocket.Exchange.{
  Exchange, decide, reaches_send, arrives, passes, acts, settles, Reach, here, next, opening,
}
use ezproxy.Api.WebSocket.Exchange.Laws.{IsSound, IsPassed, Reach-IsTold}
use ezproxy.Api.WebSocket.Exchange.Growth.{IsTold}
use ezproxy.Api.WebSocket.Exchange.Faults.{IsJammed, Reach-IsJammed, verdict_lost}
use ezproxy.Tests.Data.{busy, one_container, strict}
use ezproxy.Tests.Web.{judge, verdict_on_zero}

abbrev shown : Socket
shown = (send_pkt true (65 ∷ []) 1 one_container busy judge).1

abbrev asked : Exchange
asked = record { socket = shown; waiting = 0 ∷ []; decided = []; passed = []; blocked = false }

abbrev judged : Exchange
judged = record asked { socket = act_filter verdict_on_zero shown; blocked = true }

abbrev told : Exchange
told = decide 0 true judged.socket false judged

judged-Reach : Reach (opening judge) judged
unfolding handle_recv_filter matches_network_filter send_pkt number_packet await_verdict
    handle_client_action act_filter settle_verdict reaches_send lookup insert is_injected
judged-Reach =
    next (next here (arrives (65 ∷ []) 1 one_container busy refl (omega arith) refl refl))
      (acts strict (some (some verdict_on_zero)) busy busy judged.socket refl refl refl)

told-Reach : Reach (opening judge) told
unfolding send_pkt number_packet await_verdict act_filter settle_verdict lookup insert is_injected
told-Reach = next judged-Reach (settles 0 true judged.socket refl refl refl refl)

Reach-IsTold_example :
    All (IsTold told.socket) told.decided × All (IsPassed told.socket) told.passed
Reach-IsTold_example = Reach-IsTold judge told refl told-Reach

-- Packet 0 is judged after its time, and then a packet comes of a network that the client does not watch.
abbrev late : Exchange
late = record {
  socket = record judge { network_filter = "udp"; filter_map = (0, allow) ∷ []; pkt_id = 1 };
  waiting = [];
  decided = (0, false) ∷ [];
  passed = (1, false) ∷ [];
  blocked = true;
}

late-IsSound : IsSound late
unfolding lookup
late-IsSound = record {
  numbered = λ n v e. ground arith;
  told = (inr refl, tt);
  let_by = (inl refl, tt);
}

abbrev after_late : Exchange
after_late = record late { passed = (1, false) ∷ late.passed }

ignored-Reach : Reach late after_late
unfolding handle_recv_filter matches_network_filter
ignored-Reach =
    next here
      (passes false (65 ∷ []) 1 one_container busy false late.socket refl (omega arith) refl refl)

Reach-IsJammed_example : IsJammed after_late
Reach-IsJammed_example = Reach-IsJammed late-IsSound (refl, refl) ignored-Reach refl

-- Two packets wait, and packet 0 is allowed.
abbrev two_wait : Exchange
two_wait = record {
  socket = record judge { filter_map = (0, allow) ∷ (1, wait) ∷ []; pkt_id = 2 };
  waiting = 1 ∷ 0 ∷ [];
  decided = [];
  passed = [];
  blocked = true;
}

verdict_lost_example :
    (u : Exchange) × Reach two_wait u
    × (u.decided ≡ (0, false) ∷ [])
    × (lookup 0 u.socket.filter_map ≡ some allow)
unfolding lookup
verdict_lost_example = verdict_lost two_wait 0 1 refl refl refl refl refl refl
