-- ===== src/Testutil.antt =====
-- pkg/testutil: transport.go, logger.go and context.go, the fakes of the tests. Go's maps are
-- association lists, and the mutex of the logger is left out.
pub mod Fakes
mod Tests
use go_infrastructure.Prelude.{
  Option, none, some, List, [], ◌∷◌, ◌++◌, map, GoString, codes, lookup, insert,
}
use go_infrastructure.Kratos.Defs.{Platform}
use go_infrastructure.Middleware.Handler.{Context, Transport}
use go_infrastructure.Middleware.Logid

abbrev pub FakeHeader : Type 0
FakeHeader = List (GoString × GoString)

-- `Get`: the value of a missing key is "".
unfoldable pub header_get : FakeHeader → GoString → GoString
header_get h key = elim (lookup key h) [ none ↦ [] | some v ↦ v ]

-- `Set` and `Add`, which are the same
unfoldable pub header_set : GoString → GoString → FakeHeader → FakeHeader
header_set key value h = insert key value h

pub header_keys : FakeHeader → List GoString
header_keys h = map (λ e. e.0) h

pub header_values : FakeHeader → GoString → List GoString
header_values h key = elim (lookup key h) [ none ↦ [] | some v ↦ v ∷ [] ]

pub record FakeTransport : Type 0 where
  pub kind : GoString
  pub op : GoString
  pub req_header : FakeHeader
  pub rsp_header : FakeHeader

abbrev pub default_transport : FakeTransport
default_transport = record {
  kind = codes "grpc";
  op = codes "/test.Test/Test";
  req_header = [];
  rsp_header = [];
}

abbrev pub with_kind : GoString → FakeTransport → FakeTransport
with_kind k t = record t { kind = k }

abbrev pub with_op : GoString → FakeTransport → FakeTransport
with_op op t = record t { op = op }

unfoldable pub with_req_header : GoString → GoString → FakeTransport → FakeTransport
unfolding header_set
with_req_header k v t = record t { req_header = header_set k v t.req_header }

apply : List (FakeTransport → FakeTransport) → FakeTransport → FakeTransport
apply [] t = t
apply (o ∷ opts) t = apply opts (o t)

pub new_fake_transport : List (FakeTransport → FakeTransport) → FakeTransport
unfolding apply
new_fake_transport opts = apply opts default_transport

-- The transport as the middlewares read it.
abbrev pub as_transport : FakeTransport → Transport
as_transport t = record { kind = t.kind; operation = t.op; get = header_get t.req_header }

abbrev pub inject_server_context : {Any : Type 0} → Context Any → FakeTransport → Context Any
inject_server_context ctx t = record ctx { server = some (as_transport t) }

abbrev pub inject_client_context : {Any : Type 0} → Context Any → FakeTransport → Context Any
inject_client_context ctx t = record ctx { client = some (as_transport t) }

-- `context.Background()`
abbrev pub background : {Any : Type 0} → Context Any
background = record { server = none; client = none; span = none; peer = none; values = [] }

pub new_context_with_trace_id : (P : Platform) → GoString → Context P.Any
new_context_with_trace_id P id = Logid.new_context P id background

-- A logger of a level type, with the newest line last.
pub record MemoryLogger (Level : Type 0) : Type 0 where
  pub lines : List GoString
  pub levels : List Level

-- The pairs of `keyvals`, where a last key with no value is left out; `text` prints a value.
pub pairs_text : {V : Type 0} → (V → GoString) → List V → GoString
pairs_text text [] = []
pairs_text text (k ∷ []) = []
pairs_text text (k ∷ v ∷ rest) = codes " " ++ text k ++ codes "=" ++ text v ++ pairs_text text rest

module _ {Level V : Type 0} (level_text : Level → GoString) (text : V → GoString) where
  pub log : Level → List V → MemoryLogger Level → MemoryLogger Level
  unfolding pairs_text
  log level keyvals m = record {
    lines = m.lines ++ (codes "[" ++ level_text level ++ codes "]" ++ pairs_text text keyvals) ∷ [];
    levels = m.levels ++ level ∷ [];
  }

joined : List GoString → GoString
joined [] = []
joined (l ∷ ls) = l ++ codes "\n" ++ joined ls

pub lines_text : {Level : Type 0} → MemoryLogger Level → GoString
unfolding joined
lines_text m = joined m.lines

pub reset : {Level : Type 0} → MemoryLogger Level → MemoryLogger Level
reset m = record { lines = []; levels = [] }
