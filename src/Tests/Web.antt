-- ===== src/Tests/Web.antt =====
-- The other endpoints, a WebSocket client and the configuration at concrete values: package api and
-- helpers.go.
use ezproxy.Base.{◌≡◌, refl, true, false, some, ◌∷◌, [], Returns}
use ezproxy.Api.Perms.{check_permission, close, inject, filter, code}
use ezproxy.Api.Endpoints.{InjectData, everyone, ep_inject}
use ezproxy.Api.Endpoints.Laws.{IsInjection, ep_inject-IsInjection}
use ezproxy.Api.WebSocket.{
  drop, Socket, Query, grant, grant_inject, grant_filter, with_default, fresh_socket,
}
use ezproxy.Api.WebSocket.Client.{ClientMsg}
use ezproxy.Api.WebSocket.Laws.{grant-opened}
use ezproxy.Tests.Data.{busy, busy-IsValid, strict}

abbrev to_all : InjectData
to_all = record { target = everyone; content = 65 ∷ []; to_client = true; to_server = true }

ep_inject-IsInjection_example :
    Returns (ep_inject (λ b. some to_all) strict (some []) busy) (IsInjection busy)
ep_inject-IsInjection_example =
    ep_inject-IsInjection (λ b. some to_all) strict (some []) busy (λ l m P a. a) busy-IsValid

abbrev closer : Query
closer = record {
  wants_close = true;
  wants_inject = false;
  wants_filter = true;
  default_value = some "drop";
}

abbrev pub judge : Socket
judge = record {
  ws = true;
  can_inject = false;
  can_filter = true;
  can_close = true;
  filter_map = [];
  pkt_id = 0;
  default_action = drop;
  network_filter = "";
  written = [];
}

abbrev granted_judge : Socket
granted_judge = record judge { ws = false }

grant-opened_example :
    (granted_judge.can_close ≡ true)
    × (granted_judge.can_inject ≡ false)
    × (granted_judge.can_filter ≡ true)
    × (granted_judge.can_close ≡ true → check_permission 0x0a (code close) ≡ true)
    × (granted_judge.can_inject ≡ true → check_permission 0x0a (code inject) ≡ true)
    × (granted_judge.can_filter ≡ true → check_permission 0x0a (code filter) ≡ true)
unfolding grant grant_inject grant_filter with_default fresh_socket check_permission
grant-opened_example = grant-opened 0x0a closer granted_judge refl

-- The judge of TCP before Accept
abbrev unset_judge : Socket
unset_judge = record granted_judge { network_filter = "tcp" }

abbrev pub verdict_on_zero : ClientMsg
verdict_on_zero = record { kind = 3; target = 0; content = []; extra = 1 }
