-- ===== src/Server/Chain/Tests.antt =====
-- The default chain and `wrapHandler` at one request.
use go_infrastructure.Prelude.{ℕ, zero, suc, ◌-◌, ◌≡◌, refl, none, some, [], ◌∷◌, codes}
use go_infrastructure.Kratos.Sample.{sample, SampleError}
use go_infrastructure.Middleware.Handler.{Context, Transport, returned, panicked, Handler}
use go_infrastructure.Middleware.World.{World, LogLine}
use go_infrastructure.Middleware.Logid
use go_infrastructure.Middleware.Auth
use go_infrastructure.Middleware.Auth.Access.{token_of}
use go_infrastructure.Middleware.Observe.{err_panic, metric_code, code_of}
use go_infrastructure.Server.Sample.{logging_kratos, sample_kratos}
use go_infrastructure.Server.Chain.{
  Kratos, server_chain, RawHandler, served, wrap_handler, as_outcome,
}
use go_infrastructure.Server.Chain.Observed.{entered, server_chain-returned, server_chain-panicked}
use go_infrastructure.Server.Chain.Served.{wrap_handler-answered}
use go_infrastructure.Server.Chain.Wrapped.{wrap_handler-unauthorized}

abbrev transport : Transport
transport = record { kind = codes "http"; operation = codes "/op"; get = λ k. [] }

abbrev inbound : Context ℕ
inbound = record { server = some transport; client = none; span = none; peer = none; values = [] }

abbrev fresh : World ℕ
fresh = record {
  reply_header = [];
  request_header = [];
  uuids = λ n. codes "uuid";
  drawn = 0;
  clock = 5;
  requests = [];
  latencies = [];
  panics = [];
  log = [];
  rest = 0;
}

-- The handler panics at the request 0.
abbrev handler : Handler sample (World ℕ)
handler ctx zero w = (panicked 7, w)
handler ctx (suc n) w = (returned (some n) none, record w { clock = 2_000_005 })

abbrev K : Kratos sample (World ℕ)
K = logging_kratos (λ v w. record w { rest = v })

abbrev after : World ℕ
after = record (entered sample K inbound fresh).1 { clock = 2_000_005 }

server_chain-returned_example :
    (w3 : World ℕ) × (K.chain (server_chain sample K []) handler inbound 4 fresh
      ≡ (returned (some 3) none, w3))
    × (w3.requests ≡ (codes "http", codes "/op", codes "ok") ∷ after.requests)
    × (w3.latencies
        ≡ (codes "http", codes "/op", after.clock - (entered sample K inbound fresh).1.clock)
          ∷ after.latencies)
    × (w3.panics ≡ after.panics)
    × (w3.reply_header ≡ after.reply_header)
    × (w3.rest ≡ after.rest)
    × ((line : LogLine) × (w3.log ≡ line ∷ after.log)
        × (line.trace_id ≡ Logid.from_context sample (entered sample K inbound fresh).0)
        × (line.kind ≡ codes "http")
        × (line.op ≡ codes "/op")
        × (line.code ≡ codes "ok"))
unfolding metric_code code_of
server_chain-returned_example =
    server_chain-returned sample K [] handler inbound 4 fresh after (some 3) none refl

server_chain-panicked_example :
    (w3 : World ℕ) × (K.chain (server_chain sample K []) handler inbound 0 fresh
      ≡ (returned none (some (SampleError.kratos (err_panic sample))), w3))
    × ((err_panic sample).code ≡ 500)
    × (w3.panics ≡ codes "/op" ∷ (entered sample K inbound fresh).1.panics)
    × (w3.requests ≡ (entered sample K inbound fresh).1.requests)
    × (w3.latencies ≡ (entered sample K inbound fresh).1.latencies)
    × (w3.log ≡ (entered sample K inbound fresh).1.log)
    × (w3.rest ≡ 7)
server_chain-panicked_example =
    server_chain-panicked sample K [] handler inbound 0 7 fresh (entered sample K inbound fresh).1
      refl (refl, refl, refl)

abbrev encode : SampleError → ℕ → ℕ
encode e w = 401

abbrev ready : RawHandler sample sample_kratos encode
ready ctx w = (served, 200)

abbrev validate : Auth.Validator sample ℕ
validate ctx token w = ((none, none), w)

no_token : token_of sample (Auth.defaults sample {W = ℕ}) inbound ≡ []
unfolding Auth.extract_token
no_token = refl

wrap_handler-unauthorized_run :
    wrap_handler sample sample_kratos encode
      (Auth.serve sample (Auth.defaults sample) validate ∷ [])
      3
      ready
      inbound
      0
    ≡ (served, 401)
wrap_handler-unauthorized_run =
    wrap_handler-unauthorized sample sample_kratos encode (Auth.defaults sample) validate [] 3 ready
      inbound 0 refl no_token

abbrev encode_rest : SampleError → World ℕ → World ℕ
encode_rest e w = record w { rest = 401 }

abbrev raw : RawHandler sample K encode_rest
raw ctx w = (served, record w { rest = 7 })

abbrev written : World ℕ
written = record (entered sample K inbound fresh).1 { rest = 7 }

wrap_handler-answered_example :
    (w3 : World ℕ) × (wrap_handler sample K encode_rest
        (server_chain sample K [])
        4
        raw
        inbound
        fresh
      ≡ (served, w3))
    × (w3.requests ≡ (codes "http", codes "/op", codes "ok") ∷ written.requests)
    × (w3.latencies
        ≡ (codes "http", codes "/op", written.clock - (entered sample K inbound fresh).1.clock)
          ∷ written.latencies)
    × ((line : LogLine) × (w3.log ≡ line ∷ written.log)
        × (line.trace_id ≡ Logid.from_context sample (entered sample K inbound fresh).0)
        × (line.kind ≡ codes "http")
        × (line.op ≡ codes "/op")
        × (line.code ≡ codes "ok"))
    × (w3.panics ≡ written.panics)
    × (w3.rest ≡ written.rest)
    × (w3.reply_header ≡ written.reply_header)
unfolding metric_code code_of as_outcome
wrap_handler-answered_example =
    wrap_handler-answered sample K encode_rest [] raw inbound 4 fresh written none none refl
