-- ===== src/Middleware/Logid.antt =====
-- pkg/middleware/logid/logid.go.
pub mod Propagation
mod Tests
use go_infrastructure.Prelude.{
  ℕ, suc, Option, none, some, List, [], ◌∷◌, GoString, codes, is_empty, insert, if◌then◌else◌,
}
use go_infrastructure.Kratos.Defs.{Platform}
use go_infrastructure.Middleware.Handler.{
  Binding, auth_claims, trace_id, Context, Outcome, Handler, Middleware, with_value,
}
use go_infrastructure.Middleware.World.{World}

abbrev pub metadata_key : GoString
metadata_key = codes "x-trace-id"

module _ (P : Platform) where
  open P use {Any}

  newest_id : List (Binding Any) → GoString
  newest_id [] = []
  newest_id (auth_claims c ∷ bs) = newest_id bs
  newest_id (trace_id id ∷ bs) = id

  unfoldable pub from_context : Context Any → GoString
  unfolding newest_id
  from_context ctx = elim (ctx.span) [ some id ↦ id | none ↦ newest_id ctx.values ]

  unfoldable pub new_context : GoString → Context Any → Context Any
  new_context id ctx = with_value P (trace_id id) ctx

  abbrev pub incoming : Context Any → GoString
  incoming ctx = elim (ctx.server) [ none ↦ [] | some tr ↦ tr.get metadata_key ]

  -- `uuid.NewString()`
  abbrev new_uuid : {R : Type 0} → World R → GoString × World R
  new_uuid w = (w.uuids w.drawn, record w { drawn = suc w.drawn })

  abbrev id_or_new : {R : Type 0} → GoString → World R → GoString × World R
  id_or_new id w = if is_empty id then new_uuid w else (id, w)

  abbrev mirror : {R : Type 0} → Context Any → GoString → World R → World R
  mirror ctx id w = elim (ctx.server) [
    | none ↦ w
    | some tr ↦ record w { reply_header = insert metadata_key id w.reply_header }
  ]

  -- The context and the world in which the handler behind `Server` is called.
  unfoldable pub enter : {R : Type 0} → Context Any → World R → Context Any × World R
  unfolding new_context
  enter ctx w =
      let (id, w') = id_or_new (incoming ctx) w in
      (new_context id ctx, mirror (new_context id ctx) id w')

  unfoldable pub server : {R : Type 0} → Middleware P (World R)
  server h ctx req w = let (ctx', w') = enter ctx w in h ctx' req w'

  abbrev forward : {R : Type 0} → Context Any → GoString → World R → World R
  forward ctx id w = elim (ctx.client) [
    | none ↦ w
    | some tr ↦ record w { request_header = insert metadata_key id w.request_header }
  ]

  unfoldable pub client : {R : Type 0} → Middleware P (World R)
  unfolding from_context
  client h ctx req w =
      let id = from_context ctx in h ctx req (if is_empty id then w else forward ctx id w)
