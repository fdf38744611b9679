-- ===== src/Middleware/Handler.antt =====
-- The shape of a kratos middleware: handlers as functions of a context, a request and a state `W`
-- of the world, with the values that pkg/middleware/auth and pkg/middleware/logid put in a context.
use go_infrastructure.Prelude.{Option, some, none, List, [], ◌∷◌, GoString}
use go_infrastructure.Kratos.Defs.{Platform}

-- A `transport.Transporter` as the middlewares read it; `get` is `RequestHeader().Get`.
pub record Transport : Type 0 where
  pub kind : GoString
  pub operation : GoString
  pub get : GoString → GoString

pub record Claims (Any : Type 0) : Type 0 where
  pub subject : GoString
  pub scopes : List GoString
  pub raw : List (GoString × Any)

-- A binding of `context.WithValue`: the key types of the two packages are distinct.
pub data Binding (Any : Type 0) : Type 0 where
  auth_claims : Option (Claims Any) → Binding Any
  trace_id : GoString → Binding Any

-- `values` has the newest binding first. `span` is the trace id of a valid OTel span context, and
-- `peer` the printed address of the gRPC peer, where there is one.
pub record Context (Any : Type 0) : Type 0 where
  pub server : Option Transport
  pub client : Option Transport
  pub span : Option GoString
  pub peer : Option GoString
  pub values : List (Binding Any)

-- How a call ends: by a return of a reply and an error, either of them nil; by a panic that its
-- goroutine may recover; or by the end of the process, after a panic that no frame recovered.
pub data Outcome (P : Platform) : Type 0 where
  returned : Option P.Any → Option P.Err → Outcome P
  panicked : P.Any → Outcome P
  crashed : Outcome P

module _ (P : Platform) where
  open P use {Any}

  abbrev pub Handler : Type 0 → Type 0
  Handler W = Context Any → Any → W → Outcome P × W

  abbrev pub Middleware : Type 0 → Type 0
  Middleware W = Handler W → Handler W

  abbrev pub with_value : Binding Any → Context Any → Context Any
  with_value b ctx = record ctx { values = b ∷ ctx.values }

  -- `tr.Operation()` of the server transport, "" where there is none
  abbrev pub operation_of : Context Any → GoString
  operation_of ctx = elim (ctx.server) [ none ↦ [] | some tr ↦ tr.operation ]

  abbrev pub kind_of : Context Any → GoString
  kind_of ctx = elim (ctx.server) [ none ↦ [] | some tr ↦ tr.kind ]
