-- ===== src/Client/Outbound/Tests.antt =====
-- A call of a client whose transport is down, with three attempts and no breaker.
use go_infrastructure.Prelude.{
  ℕ, ◌≤◌, ◌≡◌, refl, true, Option, none, some, List, [], ◌∷◌, pos, GoString, codes, eq_str, lookup,
  insert, wrap64, ◌+ℤ◌, ◌-ℤ◌, ◌*ℤ◌, ◌/ℤ◌,
}
use go_infrastructure.Kratos.Sample.{sample, plain, op_error}
use go_infrastructure.Middleware.Handler.{Context, Outcome, returned, panicked, crashed, Handler}
use go_infrastructure.Middleware.World.{World}
use go_infrastructure.Middleware.Retry
use go_infrastructure.Middleware.Logid
use go_infrastructure.Middleware.Logid.{metadata_key, from_context}
use go_infrastructure.Client.{RetryConfig}
use go_infrastructure.Client.Outbound.{Outside, outbound}
use go_infrastructure.Client.Outbound.Sent.{times}
use go_infrastructure.Client.Outbound.Attempts.{outbound-times}

abbrev Ids : Type 0
Ids = List (Option GoString)

-- Each request is sent and answered with an error.
abbrev down : Handler sample (World Ids)
down ctx req w = (
  returned none (some op_error),
  record w { rest = lookup metadata_key w.request_header ∷ w.rest },
)

abbrev settled : Outcome sample → Outcome sample
settled (returned reply err) = returned reply err
settled (panicked v) = returned none (some plain)
settled crashed = crashed

-- A breaker that admits all, and timers that fire.
abbrev outside : Outside sample Ids
outside = record {
  calls = λ ids. ids;
  send = down;
  send_lem = λ ctx req w. (refl, refl);
  recover = λ h ctx req w. (settled (h ctx req w).0, (h ctx req w).1);
  recover_lem = λ h ctx req w. refl;
  span_for = λ ctx. some (codes "4bf9");
  inject = λ ctx w. record w {
    request_header = insert (codes "traceparent") (codes "4bf9") w.request_header;
  };
  inject_lem = λ ctx w. refl;
  trace = λ h ctx req w.
      h (record ctx { span = some (codes "4bf9") }) req
        (record w {
          request_header = insert (codes "traceparent") (codes "4bf9") w.request_header;
        });
  trace_lem = λ h ctx req w. refl;
  admits = λ ctx w. true;
  not_allowed = plain;
  mark = λ out w. w;
  mark_lem = λ out w. (refl, refl);
  break = λ h ctx req w. h ctx req w;
  break_lem = λ h ctx req w. refl;
  ctx_err = λ ctx w. none;
  draw = λ w. (5, w);
  draw_lem = λ w. (refl, refl);
  timer_fires = λ ctx d w. (true, w);
  timer_fires_lem = λ ctx d w. (refl, refl);
  int63n_panic = 0;
}

abbrev policy : RetryConfig
policy = record { max_attempts = pos 3; initial_backoff = pos 0; max_backoff = pos 0 }

abbrev caller : Context ℕ
caller = record {
  server = none;
  client = some (record { kind = codes "grpc"; operation = codes "/Get"; get = λ k. [] });
  span = none;
  peer = none;
  values = [];
}

abbrev world : World Ids
world = record {
  reply_header = [];
  request_header = [];
  uuids = λ n. codes "uuid";
  drawn = 0;
  clock = 5;
  requests = [];
  latencies = [];
  panics = [];
  log = [];
  rest = [];
}

outbound-times_example :
    (n : ℕ) × (n ≤ 3)
    × (1 ≤ n)
    × ((outbound sample outside policy true caller 4 world).1.rest
        ≡ times n (some (codes "4bf9")) [])
unfolding from_context
outbound-times_example =
    outbound-times sample outside policy true true caller 4 world _ (codes "4bf9") refl refl refl
      (λ e v. refl)

-- All three attempts are made.
outbound_run :
    (outbound sample outside policy true caller 4 world).1.rest ≡ times 3 (some (codes "4bf9")) []
unfolding outbound lookup insert eq_str Logid.client Retry.client ◌/ℤ◌ wrap64 ◌*ℤ◌ ◌+ℤ◌ ◌-ℤ◌
outbound_run = refl
