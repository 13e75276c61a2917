-- ===== src/Api/Session/Serves.antt =====
-- The whole life of a WebSocket is steps of the process of package handler: api/websocket.go.
use Prim.Native.String.{String}
use ezproxy.Base.{
  ℕ, ◌<◌, ◌≡◌, refl, true, false, Option, none, some, List, arith, length, Bool-cases, Option-cases,
  inl, inr,
}
use ezproxy.Errors.{Error}
use ezproxy.Context.{is_done, with_cancel}
use ezproxy.Handler.State.{Env, Spawner}
use ezproxy.Handler.Life.Growth.{Reach-Grows}
use ezproxy.Handler.Lifecycle.{try_set_filter_callback, get_recv_chan}
use ezproxy.Handler.Process.{Reach, here, next, derives, filters, watches}
use ezproxy.Handler.Process.Laws.{IsRunning, Reach-IsRunning}
use ezproxy.Handler.Process.Runs.{process, Reach-trans, RangesOver}
use ezproxy.Api.Http.{Request, Checked, pass, refuse}
use ezproxy.Api.Auth.{Keys}
use ezproxy.Api.WebSocket.{Socket, Query, Opened, opened, denied, grant}
use ezproxy.Api.Session.Laws.{close-done, Leaves, new_web_socket-Leaves}
use ezproxy.Api.Session.{
  Session, close, Incoming, Listening, panics, listening, over, listen, value_of, Started, answered,
  refused, started, is_network, with_network, attach, attach_opened, new_web_socket, Served,
  turned_away, panics_, serving, served, serve, web_socket,
}
use ezproxy.Api.Session.Runs.{close-Reach, Fits, Listens, listen-Listens}

module _ (n k : ℕ) (env : Env) where
  -- What newWebSocket comes to before Accept: steps, and in a session the context of the WebSocket is
  -- the next one that is made.
  abbrev Starts : ℕ → Spawner → Started → Type 0
  Starts ctx p (answered x q) = Reach (process n p) (process n q)
  Starts ctx p (refused s q) = Reach (process n p) (process n q)
  Starts ctx p (started s q) = Reach (process n p) (process n q) × (s.ctx ≡ ctx)

  with_network-Starts :
      (net : String) (w : Socket) (ctx : ℕ) (recv : Option ℕ) (p q : Spawner)
      → Reach (process n p) (process n q)
      → Starts ctx p (with_network net w ctx recv q)
  unfolding with_network
  with_network-Starts net w ctx recv p q r = elim (Bool-cases (is_network net)) [
    | inl e ↦ rw e (r, refl)
    | inr e ↦ rw e (Reach-trans r (close-Reach n ctx recv q))
  ]

  attach-Starts :
      (cb api_ctx : ℕ) (net : String) (w : Socket) (ctx : ℕ) (p q : Spawner)
      → Reach (process n p) (process n q)
      → ctx < length q.contexts
      → api_ctx < length q.contexts
      → Starts ctx p (attach cb api_ctx net w ctx q)
  unfolding attach
  attach-Starts cb api_ctx net w ctx p q r l m =
      let filtered = Reach-trans r (next here (filters (some cb) ctx l refl)) in
      let watched = Reach-trans r (next here (watches api_ctx m refl)) in
      elim (Bool-cases w.can_filter) [
        | inl e ↦ rw e (elim (Option-cases (try_set_filter_callback (some cb) ctx q).0) [
          | inl f ↦ rw f (with_network-Starts net w ctx none p _ filtered)
          | inr (x, f) ↦ rw f (Reach-trans filtered (close-Reach n ctx none _))
        ])
        | inr e ↦ rw e (
            with_network-Starts net (record w { can_filter = false }) ctx
              (some (get_recv_chan api_ctx q).0) p _ watched)
      ]

  attach_opened-Starts :
      (cb api_ctx : ℕ) (net : String) (o : Opened) (ctx : ℕ) (p q : Spawner)
      → Reach (process n p) (process n q)
      → ctx < length q.contexts
      → api_ctx < length q.contexts
      → Starts ctx p (attach_opened cb api_ctx net o ctx q)
  attach_opened-Starts cb api_ctx net (opened w) ctx p q r l m =
      attach-Starts cb api_ctx net w ctx p q r l m
  attach_opened-Starts cb api_ctx net (denied s) ctx p q r l m =
      Reach-trans r (close-Reach n ctx none q)

  checked-Starts :
      (q : Query) (cb api_ctx : ℕ) (net : String) (ctx : ℕ) (p : Spawner) (c : Checked ℕ)
      → ctx < length p.contexts
      → api_ctx < length p.contexts
      → Starts ctx p (elim c [
        | refuse x ↦ answered x (close ctx none p)
        | pass value ↦ attach_opened cb api_ctx net (grant value q) ctx p
      ])
  checked-Starts q cb api_ctx net ctx p (refuse x) l m = close-Reach n ctx none p
  checked-Starts q cb api_ctx net ctx p (pass value) l m =
      attach_opened-Starts cb api_ctx net (grant value q) ctx p p here l m

  -- The spawner with the context of the WebSocket, which is made first.
  abbrev with_context : ℕ → Spawner → Spawner
  with_context api_ctx p = record p { contexts = (with_cancel p.contexts api_ctx).0 }

  new_web_socket-Starts :
      (auth : Option Keys) (r : Request) (q : Query) (net : String) (cb api_ctx : ℕ) (p : Spawner)
      → api_ctx < length p.contexts
      → Starts
          (length p.contexts)
          (with_context api_ctx p)
          (new_web_socket auth r q net cb api_ctx p)
  unfolding new_web_socket with_cancel
  new_web_socket-Starts auth r q net cb api_ctx p l =
      checked-Starts q cb api_ctx net (length p.contexts) (with_context api_ctx p) (value_of auth r)
        (unfold with_cancel in omega arith) (unfold with_cancel in omega arith)

  -- No call panics, the WebSocket has taken steps only, and leaves its context dead.
  abbrev pub Serves : ℕ → Spawner → Served → Type 0
  Serves ctx p (turned_away q) = Reach (process n p) (process n q) × (is_done q.contexts ctx ≡ true)
  Serves ctx p panics_ = ⊥
  Serves ctx p (serving q w) = Reach (process n p) (process n q)
  Serves ctx p (served q o) = Reach (process n p) (process n q) × (is_done q.contexts ctx ≡ true)

  closed :
      (ctx : ℕ) (recv : Option ℕ) (p q : Spawner)
      → IsRunning k (process n p)
      → ctx < length p.contexts
      → Reach (process n p) (process n q)
      → Reach (process n p) (process n (close ctx recv q))
        × (is_done (close ctx recv q).contexts ctx ≡ true)
  closed ctx recv p q r l a =
      let v = (Reach-IsRunning r a).valid in
      (
        Reach-trans a (close-Reach n ctx recv q),
        close-done ctx recv q v.tree (omega (arith, l, (Reach-Grows r a).longer)),
      )

  serve-Serves :
      (accepts : Option Error) (l : List ((Spawner → Spawner) × Incoming)) (s : Session)
      (p q : Spawner)
      → RangesOver env
      → IsRunning k (process n p)
      → s.ctx < length p.contexts
      → Reach (process n p) (process n q)
      → Fits n k env l q (record s.socket { ws = true })
      → Serves s.ctx p (serve env accepts l s q)
  unfolding serve
  serve-Serves (some e) l s p q o r m a f = closed s.ctx s.recv p q r m a
  serve-Serves none l s p q o r m a f =
      go (listen env s.ctx s.recv l q (record s.socket { ws = true })) (
        listen-Listens n k env s.ctx s.recv l q (record s.socket { ws = true }) o
          (Reach-IsRunning r a) f)
    where
      go :
          (x : Listening)
          → Listens n k env q x
          → Serves s.ctx p (elim x [
            | panics ↦ panics_
            | listening q w ↦ serving q w
            | over q w ↦ served (close s.ctx s.recv q) (some w)
          ])
      go panics h = h
      go (listening y w) h = Reach-trans a h
      go (over y w) h = closed s.ctx s.recv p y r m (Reach-trans a h)

  Serves-trans :
      (ctx : ℕ) (p q : Spawner) (x : Served)
      → Reach (process n p) (process n q)
      → Serves ctx q x
      → Serves ctx p x
  Serves-trans ctx p q (turned_away r) a (b, d) = (Reach-trans a b, d)
  Serves-trans ctx p q panics_ a h = h
  Serves-trans ctx p q (serving r w) a b = Reach-trans a b
  Serves-trans ctx p q (served r o) a (b, d) = (Reach-trans a b, d)

  started-Serves :
      (accepts : Option Error) (l : List ((Spawner → Spawner) × Incoming)) (ctx : ℕ) (p : Spawner)
      (x : Started)
      → RangesOver env
      → IsRunning k (process n p)
      → ctx < length p.contexts
      → Starts ctx p x
      → Leaves ctx x
      → ((s : Session) (q : Spawner)
          → x ≡ started s q
          → Fits n k env l q (record s.socket { ws = true }))
      → Serves ctx p (elim x [
        | answered y q ↦ turned_away q
        | refused y q ↦ turned_away q
        | started s q ↦ serve env accepts l s q
      ])
  started-Serves accepts l ctx p (answered y q) o r m a d f = (a, d)
  started-Serves accepts l ctx p (refused y q) o r m a d f = (a, d)
  started-Serves accepts l ctx p (started s q) o r m (a, e) d f =
      rw (← e) (serve-Serves accepts l s p q o r (rw e m) a (f s q refl))

  -- For a WebSocket of a running spawner and a context of the WebApi that exists, no call of package
  -- handler that the goroutine of newWebSocket makes panics, and from the request to the end all that it
  -- does to the spawner is steps of its process, whatever the request, the socket and the client's
  -- messages are, if what others do meanwhile is steps and a range over a map visits only entries of the
  -- map; when newWebSocket returns, the context of the WebSocket, under which it may have installed a
  -- filter, is dead.
  pub web_socket-Serves :
      (accepts : Option Error) (l : List ((Spawner → Spawner) × Incoming)) (auth : Option Keys)
      (r : Request) (q : Query) (net : String) (cb api_ctx : ℕ) (p : Spawner)
      → RangesOver env
      → IsRunning k (process n p)
      → api_ctx < length p.contexts
      → ((s : Session) (p' : Spawner)
          → new_web_socket auth r q net cb api_ctx p ≡ started s p'
          → Fits n k env l p' (record s.socket { ws = true }))
      → Serves (length p.contexts) p (web_socket env accepts l auth r q net cb api_ctx p)
  unfolding web_socket
  web_socket-Serves accepts l auth r q net cb api_ctx p o v m f =
      let a : Reach (process n p) (process n (with_context api_ctx p)) =
        next here (derives api_ctx m refl) in
      Serves-trans (length p.contexts) p (with_context api_ctx p) _ a (
        started-Serves accepts l (length p.contexts) (with_context api_ctx p)
          (new_web_socket auth r q net cb api_ctx p) o (Reach-IsRunning v a)
          (unfold with_cancel in omega arith) (new_web_socket-Starts auth r q net cb api_ctx p m)
          (new_web_socket-Leaves auth r q net cb api_ctx p v.valid m) f)
