-- ===== src/Middleware/Logid/Tests.antt =====
-- The trace id theorems at one request with no id and one reply.
use go_infrastructure.Prelude.{ℕ, ◌≡◌, refl, none, some, [], ◌∷◌, codes, lookup}
use go_infrastructure.Kratos.Sample.{sample}
use go_infrastructure.Middleware.Handler.{Context, Transport, trace_id, returned, Handler}
use go_infrastructure.Middleware.World.{World}
use go_infrastructure.Middleware.Logid.{metadata_key, from_context, server, client}
use go_infrastructure.Middleware.Logid.Propagation.{server_lem, client_lem}

abbrev transport : Transport
transport = record { kind = codes "http"; operation = codes "/op"; get = λ k. [] }

abbrev inbound : Context ℕ
inbound = record { server = some transport; client = none; span = none; peer = none; values = [] }

abbrev outbound : Context ℕ
outbound = record {
  server = none;
  client = some transport;
  span = none;
  peer = none;
  values = trace_id (codes "t7") ∷ [];
}

abbrev fresh : World ℕ
fresh = record {
  reply_header = [];
  request_header = [];
  uuids = λ n. codes "uuid";
  drawn = 0;
  clock = 5;
  requests = [];
  latencies = [];
  panics = [];
  log = [];
  rest = 0;
}

abbrev echo : Handler sample (World ℕ)
echo ctx req w = (returned (some req) none, w)

server_lem_example :
    (inner : Context ℕ) × (w1 : (World ℕ)) × (server sample echo inbound 3 fresh ≡ echo inner 3 w1)
    × (from_context sample inner ≡ codes "uuid")
    × (lookup metadata_key w1.reply_header ≡ some (codes "uuid"))
    × (w1.drawn ≡ 1)
    × (w1.request_header ≡ [])
server_lem_example = server_lem sample echo inbound 3 fresh transport refl

client_lem_run :
    (w1 : (World ℕ)) × (client sample echo outbound 3 fresh ≡ echo outbound 3 w1)
    × (lookup metadata_key w1.request_header ≡ some (from_context sample outbound))
    × (w1.reply_header ≡ [])
    × (w1.drawn ≡ 0)
unfolding from_context
client_lem_run = client_lem sample echo outbound 3 fresh transport refl refl
