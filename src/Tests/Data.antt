-- ===== src/Tests/Data.antt =====
-- A spawner with one connection, a live filter and a live receiver (handler/spawner.go), and what
-- the environment answers it.
use ezproxy.Base.{refl, true, false, none, some, [], ◌∷◌, arith}
use ezproxy.Errors.{external}
use ezproxy.Base.Maps.{lookup}
use ezproxy.Context.{Contexts, cause_of, is_done, IsTree}
use ezproxy.Handler.State.{Addr, Proxy, Container, RecvChan, Env, Spawner}
use ezproxy.Handler.Invariant.{IsValid}

abbrev pub server : Addr
server = record { network = "tcp"; address = "10.0.0.1:80" }

abbrev pub local : Addr
local = record { network = "tcp"; address = "127.0.0.1:81" }

abbrev pub client : Proxy
client = record {
  network = "tcp";
  client_addr = record { network = "tcp"; address = "127.0.0.1:5000" };
}

-- The root, the spawner, its container, the filter and the receiver, from the right.
abbrev pub five_contexts : Contexts
five_contexts =
    record { parent = some 0; cause = none }
    ∷ record { parent = some 0; cause = none }
    ∷ record { parent = some 1; cause = none }
    ∷ record { parent = some 0; cause = none }
    ∷ record { parent = none; cause = none }
    ∷ []

pub five_contexts-IsTree : IsTree five_contexts
unfolding cause_of
five_contexts-IsTree = ground arith

abbrev pub one_container : Container
one_container = record { id = 0; ctx = 2; px = client; bytes_sent = 0; last_contact = 0 }

abbrev pub one_receiver : RecvChan
one_receiver = record { ctx = 4; closed = false }

abbrev pub busy : Spawner
busy = record {
  current_id = 1;
  connections = (0, 0) ∷ [];
  total_sent = 0;
  server_addr = server;
  proxy_addr = local;
  context = 1;
  wg = 2;
  send_callback = some 7;
  error_callback = none;
  rc_chan = one_receiver ∷ [];
  callback_ctx = some 3;
  containers = one_container ∷ [];
  contexts = five_contexts;
  log = [];
}

pub busy-IsValid : IsValid busy
unfolding cause_of is_done lookup
busy-IsValid = record {
  tree = five_contexts-IsTree;
  rooted = omega arith;
  fresh = (omega arith, tt);
  located = (refl, tt);
  distinct = (refl, tt);
  linked = λ _. refl;
  filter_made = omega arith;
  housed = (omega arith, tt);
  channels = ((omega arith, λ e. absurd (cc e)), tt);
  counted = omega arith;
}

-- The same without a filter
abbrev pub unfiltered : Spawner
unfiltered = record busy { callback_ctx = none; send_callback = none }

pub unfiltered-IsValid : IsValid unfiltered
unfiltered-IsValid = record {
  tree = busy-IsValid.tree;
  rooted = busy-IsValid.rooted;
  fresh = busy-IsValid.fresh;
  located = busy-IsValid.located;
  distinct = busy-IsValid.distinct;
  linked = λ e. absurd (cc e);
  filter_made = tt;
  housed = busy-IsValid.housed;
  channels = busy-IsValid.channels;
  counted = busy-IsValid.counted;
}

-- A filter that refuses everything, and sockets and receivers that work.
abbrev pub strict : Env
strict = record {
  answer = λ l cb bytes flags h. false;
  send = λ l h sb bytes. none;
  receives = λ l i. true;
  init = λ l px. none;
  now = λ l. 9;
  order = λ l m. m;
}

abbrev pub lenient : Env
lenient = record strict { answer = λ l cb bytes flags h. true }

abbrev pub broken : Env
broken = record strict { init = λ l px. some (external 1) }
