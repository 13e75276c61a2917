-- ===== src/Tests/Sends.antt =====
-- A packet through the spawner: handler/spawner.go and handler/proxy.go.
use ezproxy.Base.{◌≡◌, refl, true, some, ◌∷◌, [], Returns}
use ezproxy.Context.{cause_of, is_done}
use ezproxy.Handler.State.{filtered, Spawner}
use ezproxy.Handler.Send.{handle_send}
use ezproxy.Handler.Send.Laws.{IsHandled, handle_send-IsHandled}
use ezproxy.Handler.Container.{PacketData, send_to, handle_packet, injection_flags}
use ezproxy.Handler.Container.Laws.{IsWritten, send_to-IsWritten}
use ezproxy.Handler.Container.Packets.{handle_packet_refused}
use ezproxy.Tests.Data.{client, server, one_container, busy, busy-IsValid, strict}

handle_send-IsHandled_example :
    Returns
      (handle_send strict (65 ∷ []) 1 0 busy)
      (IsHandled strict (65 ∷ []) 1 0 one_container busy)
handle_send-IsHandled_example =
    handle_send-IsHandled strict (65 ∷ []) 1 0 one_container busy busy-IsValid refl

send_to-IsWritten_example : Returns (send_to true strict (65 ∷ []) 0 busy) (λ r.
    (q : Spawner) × (handle_send strict (65 ∷ []) (injection_flags true) 0 busy ≡ some (true, q))
    × IsWritten strict true (65 ∷ []) 0 one_container q r)
unfolding cause_of
send_to-IsWritten_example =
    send_to-IsWritten true strict (65 ∷ []) 0 one_container busy busy-IsValid refl refl

abbrev hello : PacketData
hello = record {
  serverbound = true;
  source = client.client_addr;
  dest = server;
  content = 72 ∷ 105 ∷ [];
}

handle_packet_refused_example :
    handle_packet strict hello 0 busy
    ≡ some (record busy { total_sent = 2; log = filtered 7 (72 ∷ 105 ∷ []) 1 0 ∷ [] })
unfolding is_done cause_of
handle_packet_refused_example =
    handle_packet_refused strict hello 0 one_container busy 7 busy-IsValid refl refl refl
