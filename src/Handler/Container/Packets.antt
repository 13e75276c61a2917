-- ===== src/Handler/Container/Packets.antt =====
-- The goroutine of a container, handlePacket in handler/proxy.go.
use ezproxy.Base.{
  ℕ, ◌+◌, ◌%◌, ◌<◌, ◌≡◌, refl, ap, ◌∙◌, Bool, true, false, Option, some, ◌∷◌, length, Returns,
  Bool-cases, inl, inr, get_elem?, get_elem?-some,
}
use ezproxy.Errors.{Error}
use ezproxy.Handler.Flags.{is_injected}
use ezproxy.Handler.State.{word, Container, filtered, Env, Spawner}
use ezproxy.Handler.Invariant.{IsValid}
use ezproxy.Handler.Send.{handle_send}
use ezproxy.Handler.Send.Laws.{passes, active_filter, handle_send-drop, handle_send_total}
use ezproxy.Handler.Container.{write_out, PacketData, packet_flags, handle_packet}
use ezproxy.Handler.Container.Laws.{
  IsKept, IsKept-refl, IsKept-steady, at-steady, IsWritten, write_out-IsKept, write_out-IsWritten,
}

packet_flags-IsInjected : (sb : Bool) → is_injected (packet_flags sb) ≡ false
unfolding is_injected
packet_flags-IsInjected true = refl
packet_flags-IsInjected false = refl

-- In a valid spawner a packet from a socket that the live filter refuses goes nowhere: no socket is
-- written and no receiver is offered it, and all that changes is the total of the bytes and the log,
-- by the call of the filter.
pub handle_packet_refused :
    (env : Env) (d : PacketData) (h : ℕ) (c : Container) (p : Spawner) (cb : ℕ)
    → IsValid p
    → get_elem? p.containers h ≡ some c
    → active_filter p ≡ some cb
    → env.answer p.log cb d.content (packet_flags d.serverbound) h ≡ false
    → handle_packet env d h p
      ≡ some (record p {
        total_sent = (p.total_sent + length d.content) % word;
        log = filtered cb d.content (packet_flags d.serverbound) h ∷ p.log;
      })
unfolding handle_packet
handle_packet_refused env d h c p cb v e live refused =
    let drop =
      handle_send-drop env d.content (packet_flags d.serverbound) h c p cb v e live refused
        (packet_flags-IsInjected d.serverbound) in
    rw e (rw drop refl)

-- In a valid spawner a packet from a socket that no live filter refuses is written to the socket at
-- its other end, after HandleSend put it forward.
pub handle_packet_forwarded :
    (env : Env) (d : PacketData) (h : ℕ) (c : Container) (p : Spawner)
    → IsValid p
    → get_elem? p.containers h ≡ some c
    → passes env d.content (packet_flags d.serverbound) h p ≡ true
    → Returns (handle_packet env d h p) (λ r.
      (q : Spawner) × (x : Option Error) × (handle_send env d.content
          (packet_flags d.serverbound)
          h
          p
        ≡ some (true, q))
      × IsWritten env d.serverbound d.content h c q (x, r))
unfolding handle_packet
handle_packet_forwarded env d h c p v e on =
    let (r, m, handled, kept) =
      handle_send_total env d.content (packet_flags d.serverbound) h c p v e in
    let passed : r.0 ≡ true = handled.result ∙ on in
    rw e (
      rw m (
        rw passed (
          r.1,
          (write_out env h c d.serverbound d.content r.1).0,
          ap (λ b. some (b, r.1)) passed,
          write_out-IsWritten env h c d.serverbound d.content r.1 (at-steady p r.1 h kept e),
        )))

-- A packet from a socket of any container of a valid spawner does not make its goroutine panic, and
-- keeps the spawner valid.
pub handle_packet-IsKept :
    (env : Env) (d : PacketData) (h : ℕ) (p : Spawner)
    → IsValid p
    → h < length p.containers
    → Returns (handle_packet env d h p) (IsKept p)
unfolding handle_packet
handle_packet-IsKept env d h p v l =
    let (c, e) = get_elem?-some p.containers h l in
    let (r, m, handled, kept) =
      handle_send_total env d.content (packet_flags d.serverbound) h c p v e in
    let w =
      write_out-IsKept env h c d.serverbound d.content r.1 kept.valid (at-steady p r.1 h kept e) in
    rw e (
      rw m (elim (Bool-cases r.0) [
        | inl on ↦ rw on (IsKept-steady p r.1 _ kept w)
        | inr off ↦ rw off (IsKept-steady p r.1 r.1 kept (IsKept-refl r.1 kept.valid))
      ]))
