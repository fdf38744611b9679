-- ===== src/Middleware/Logid/Propagation.antt =====
-- The way of a trace id from an inbound request to the reply, the context and outbound requests.
use go_infrastructure.Prelude.{
  suc, ◌≡◌, refl, ap, ◌∙◌, false, Bool-cases, inl, inr, Option, none, some, List, GoString,
  is_empty, eq_str_refl, lookup, insert, lookup-insert, if◌then◌else◌,
}
use go_infrastructure.Kratos.Defs.{Platform}
use go_infrastructure.Middleware.Handler.{Context, Transport, Handler}
use go_infrastructure.Middleware.World.{World}
use go_infrastructure.Middleware.Logid.{
  metadata_key, from_context, enter, server, client, new_context, newest_id,
}

lookup-insert_self :
    {V : Type 0} (k : GoString) (v : V) (m : List (GoString × V)) → lookup k (insert k v m) ≡ some v
lookup-insert_self k v m = lookup-insert k k v m ∙ rw (eq_str_refl k)

module _ (P : Platform) where
  open P use {Any}

  -- The id of a request: that of its header, or a new UUID.
  abbrev pub request_id : {R : Type 0} → Transport → World R → GoString
  request_id tr w = if is_empty (tr.get metadata_key) then w.uuids w.drawn else tr.get metadata_key

  abbrev pub span_or : Option GoString → GoString → GoString
  span_or none id = id
  span_or (some s) id = s

  rw_server :
      {R : Type 0} (h : Handler P (World R)) (ctx : Context Any) (req : Any) (w : World R)
      → server P h ctx req w ≡ h (enter P ctx w).0 req (enter P ctx w).1
  unfolding server
  rw_server h ctx req w = refl

  bound-from_context :
      (ctx : Context Any) (sp : Option GoString) (id : GoString)
      → from_context P (new_context P id (record ctx { span = sp })) ≡ span_or sp id
  unfolding from_context new_context newest_id
  bound-from_context ctx none id = refl
  bound-from_context ctx (some x) id = refl

  enter-from_context :
      {R : Type 0} (ctx : Context Any) (w : World R) (tr : Transport)
      → ctx.server ≡ some tr
      → from_context P (enter P ctx w).0 ≡ span_or ctx.span (request_id tr w)
  unfolding enter
  enter-from_context ctx w tr s = elim (Bool-cases (is_empty (tr.get metadata_key))) [
    | inl e ↦ bound-from_context ctx ctx.span _ ∙ ap (span_or ctx.span) (rw (s, e))
    | inr f ↦ bound-from_context ctx ctx.span _ ∙ ap (span_or ctx.span) (rw (s, f))
  ]

  pub enter-mirrored :
      {R : Type 0} (ctx : Context Any) (w : World R) (tr : Transport)
      → ctx.server ≡ some tr
      → (enter P ctx w).1.reply_header ≡ insert metadata_key (request_id tr w) w.reply_header
  unfolding enter new_context
  enter-mirrored ctx w tr s = elim (Bool-cases (is_empty (tr.get metadata_key))) [
    | inl e ↦ rw (s, e)
    | inr f ↦ rw (s, f)
  ]

  enter-reply_header :
      {R : Type 0} (ctx : Context Any) (w : World R) (tr : Transport)
      → ctx.server ≡ some tr
      → lookup metadata_key (enter P ctx w).1.reply_header ≡ some (request_id tr w)
  enter-reply_header ctx w tr s =
      rw (enter-mirrored ctx w tr s) (lookup-insert_self metadata_key (request_id tr w) _)

  enter-drawn :
      {R : Type 0} (ctx : Context Any) (w : World R) (tr : Transport)
      → ctx.server ≡ some tr
      → (enter P ctx w).1.drawn ≡ (if is_empty (tr.get metadata_key) then suc w.drawn else w.drawn)
  unfolding enter new_context
  enter-drawn ctx w tr s = elim (Bool-cases (is_empty (tr.get metadata_key))) [
    | inl e ↦ rw (s, e)
    | inr f ↦ rw (s, f)
  ]

  enter-request_header :
      {R : Type 0} (ctx : Context Any) (w : World R) (tr : Transport)
      → ctx.server ≡ some tr
      → (enter P ctx w).1.request_header ≡ w.request_header
  unfolding enter new_context
  enter-request_header ctx w tr s = elim (Bool-cases (is_empty (tr.get metadata_key))) [
    | inl e ↦ rw (s, e)
    | inr f ↦ rw (s, f)
  ]

  -- For a request with a server transport the inbound middleware is one call of its handler, in a context from which the request's id can be
  -- read (or the id of the span, where there is one), and mirrors the request's id into the reply
  -- header; a UUID is drawn only for a request with no id.
  pub server_lem :
      {R : Type 0} (h : Handler P (World R)) (ctx : Context Any) (req : Any) (w : World R)
      (tr : Transport)
      → ctx.server ≡ some tr
      → (inner : Context Any) × (w1 : World R) × (server P h ctx req w ≡ h inner req w1)
        × (from_context P inner ≡ span_or ctx.span (request_id tr w))
        × (lookup metadata_key w1.reply_header ≡ some (request_id tr w))
        × (w1.drawn ≡ (if is_empty (tr.get metadata_key) then suc w.drawn else w.drawn))
        × (w1.request_header ≡ w.request_header)
  server_lem h ctx req w tr s = (
    (enter P ctx w).0,
    (enter P ctx w).1,
    rw_server h ctx req w,
    enter-from_context ctx w tr s,
    enter-reply_header ctx w tr s,
    enter-drawn ctx w tr s,
    enter-request_header ctx w tr s,
  )

  -- In a context with a client transport and a trace id that is not empty the outbound middleware is
  -- one call of its handler in that context, with the trace id in the header of the outbound request;
  -- the reply header and the count of drawn UUIDs stay.
  pub client_lem :
      {R : Type 0} (h : Handler P (World R)) (ctx : Context Any) (req : Any) (w : World R)
      (tr : Transport)
      → ctx.client ≡ some tr
      → is_empty (from_context P ctx) ≡ false
      → (w1 : World R) × (client P h ctx req w ≡ h ctx req w1)
        × (lookup metadata_key w1.request_header ≡ some (from_context P ctx))
        × (w1.reply_header ≡ w.reply_header)
        × (w1.drawn ≡ w.drawn)
  unfolding client
  client_lem h ctx req w tr s n = (
    record w { request_header = insert metadata_key (from_context P ctx) w.request_header },
    rw (n, s),
    lookup-insert_self metadata_key (from_context P ctx) w.request_header,
    refl,
    refl,
  )
