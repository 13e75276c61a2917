-- ===== src/Api/Session/Laws.antt =====
-- What a WebSocket that is refused leaves behind, api/websocket.go.
use Prim.Native.String.{String}
use ezproxy.Base.{
  ℕ, ◌<◌, ◌≡◌, true, false, Option, none, some, arith, Bool-cases, Option-cases, inl, inr, length,
}
use ezproxy.Errors.{canceled}
use ezproxy.Context.{is_done, with_cancel, cancel, IsTree}
use ezproxy.Context.Laws.{is_done-cancel_self, is_done-cancel_mono, cancel-IsTree}
use ezproxy.Handler.State.{Spawner}
use ezproxy.Handler.Invariant.{IsValid}
use ezproxy.Handler.Invariant.Frame.{with_cancel-IsValid}
use ezproxy.Handler.Lifecycle.{try_set_filter_callback, get_recv_chan}
use ezproxy.Handler.Lifecycle.Laws.{try_set_filter_callback-IsValid, get_recv_chan-IsValid}
use ezproxy.Handler.Life.Quiet.{filter-IsQuiet}
use ezproxy.Api.Http.{Request, Checked, pass, refuse}
use ezproxy.Api.Auth.{Keys}
use ezproxy.Api.WebSocket.{Socket, Query, Opened, opened, denied, grant}
use ezproxy.Api.Session.{
  close, value_of, Started, answered, refused, started, is_network, with_network, attach,
  attach_opened, new_web_socket,
}

pub close-done :
    (ctx : ℕ) (recv : Option ℕ) (p : Spawner)
    → IsTree p.contexts
    → ctx < length p.contexts
    → is_done (close ctx recv p).contexts ctx ≡ true
unfolding close
close-done ctx none p t l = is_done-cancel_self p.contexts ctx canceled t l
close-done ctx (some c) p t l =
    is_done-cancel_mono (cancel p.contexts ctx canceled) c ctx canceled
      (cancel-IsTree p.contexts ctx canceled t) (is_done-cancel_self p.contexts ctx canceled t l)

-- A refusal leaves the context of the WebSocket cancelled.
abbrev pub Leaves : ℕ → Started → Type 0
Leaves ctx (answered x q) = is_done q.contexts ctx ≡ true
Leaves ctx (refused s q) = is_done q.contexts ctx ≡ true
Leaves ctx (started w q) = Unit {0}

with_network-Leaves :
    (n : String) (w : Socket) (ctx : ℕ) (recv : Option ℕ) (p : Spawner)
    → IsTree p.contexts
    → ctx < length p.contexts
    → Leaves ctx (with_network n w ctx recv p)
unfolding with_network
with_network-Leaves n w ctx recv p t l = elim (Bool-cases (is_network n)) [
  | inl e ↦ rw e tt
  | inr e ↦ rw e (close-done ctx recv p t l)
]

attach-Leaves :
    (cb api_ctx : ℕ) (n : String) (w : Socket) (ctx : ℕ) (p : Spawner)
    → IsValid p
    → ctx < length p.contexts
    → api_ctx < length p.contexts
    → Leaves ctx (attach cb api_ctx n w ctx p)
unfolding attach
attach-Leaves cb api_ctx n w ctx p v l m =
    let q = (try_set_filter_callback (some cb) ctx p).1 in
    let u = try_set_filter_callback-IsValid (some cb) ctx p v l in
    let k : ctx < length q.contexts =
      omega (arith, (filter-IsQuiet (some cb) ctx p v.tree).grown.longer) in
    elim (Bool-cases w.can_filter) [
      | inl e ↦ rw e (elim (Option-cases (try_set_filter_callback (some cb) ctx p).0) [
        | inl f ↦ rw f (with_network-Leaves n w ctx none q u.tree k)
        | inr (x, f) ↦ rw f (close-done ctx none q u.tree k)
      ])
      | inr e ↦
          let r = (get_recv_chan api_ctx p).1 in
          rw e (
            with_network-Leaves n (record w { can_filter = false }) ctx
              (some (get_recv_chan api_ctx p).0) r (get_recv_chan-IsValid api_ctx p v m).tree
              (unfold get_recv_chan with_cancel in omega arith))
    ]

attach_opened-Leaves :
    (cb api_ctx : ℕ) (n : String) (o : Opened) (ctx : ℕ) (p : Spawner)
    → IsValid p
    → ctx < length p.contexts
    → api_ctx < length p.contexts
    → Leaves ctx (attach_opened cb api_ctx n o ctx p)
attach_opened-Leaves cb api_ctx n (opened w) ctx p v l m = attach-Leaves cb api_ctx n w ctx p v l m
attach_opened-Leaves cb api_ctx n (denied s) ctx p v l m = close-done ctx none p v.tree l

-- Whatever newWebSocket refuses a request for, the context that it made for the WebSocket, under which
-- it may have installed a filter already, is cancelled when it returns, if the spawner is valid and the
-- context of the WebApi exists.
pub new_web_socket-Leaves :
    (auth : Option Keys) (r : Request) (q : Query) (n : String) (cb api_ctx : ℕ) (p : Spawner)
    → IsValid p
    → api_ctx < length p.contexts
    → Leaves (length p.contexts) (new_web_socket auth r q n cb api_ctx p)
unfolding new_web_socket with_cancel
new_web_socket-Leaves auth r q n cb api_ctx p v l =
    let p' : Spawner = record p { contexts = (with_cancel p.contexts api_ctx).0 } in
    let u : IsValid p' = with_cancel-IsValid p api_ctx v l in
    let here : length p.contexts < length p'.contexts = unfold with_cancel in omega arith in
    let up : api_ctx < length p'.contexts = unfold with_cancel in omega arith in
    go p' u here up (value_of auth r)
  where
    go :
        (p' : Spawner)
        → IsValid p'
        → length p.contexts < length p'.contexts
        → api_ctx < length p'.contexts
        → (c : Checked ℕ)
        → Leaves (length p.contexts) (elim c [
          | refuse x ↦ answered x (close (length p.contexts) none p')
          | pass value ↦ attach_opened cb api_ctx n (grant value q) (length p.contexts) p'
        ])
    go p' u here up (refuse x) = close-done (length p.contexts) none p' u.tree here
    go p' u here up (pass value) =
        attach_opened-Leaves cb api_ctx n (grant value q) (length p.contexts) p' u here up
