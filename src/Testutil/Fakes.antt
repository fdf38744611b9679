-- ===== src/Testutil/Fakes.antt =====
-- What the fakes give back of what the tests put in.
use go_infrastructure.Prelude.{
  ◌≡◌, refl, sym, arith, List, [], ◌∷◌, ◌++◌, append-nil, append_assoc, GoString, codes,
  lookup-insert, eq_str, if◌then◌else◌,
}
use go_infrastructure.Testutil.{
  FakeHeader, header_get, header_set, FakeTransport, with_req_header, apply, default_transport,
  new_fake_transport, MemoryLogger, pairs_text, log, joined, lines_text,
}

apply-append :
    (opts : List (FakeTransport → FakeTransport)) (o : FakeTransport → FakeTransport)
    (t : FakeTransport)
    → apply (opts ++ o ∷ []) t ≡ o (apply opts t)
unfolding apply
apply-append [] o t = refl
apply-append (p ∷ opts) o t = apply-append opts o (p t)

header_get-set :
    (k j v : GoString) (h : FakeHeader)
    → header_get (header_set k v h) j ≡ (if eq_str k j then v else header_get h j)
unfolding header_get header_set
header_get-set k j v h = ground (arith, lookup-insert k j v h)

-- The last `WithReqHeader` of a key decides what the transport says under it, and leaves every
-- other key and the rest of the transport.
pub new_fake_transport-with_req_header :
    (opts : List (FakeTransport → FakeTransport)) (k v j : GoString)
    → (header_get (new_fake_transport (opts ++ with_req_header k v ∷ [])).req_header j
        ≡ (if eq_str k j then v else header_get (new_fake_transport opts).req_header j))
      × ((new_fake_transport (opts ++ with_req_header k v ∷ [])).op ≡ (new_fake_transport opts).op)
unfolding new_fake_transport with_req_header
new_fake_transport-with_req_header opts k v j = (
  rw (apply-append opts (with_req_header k v) default_transport)
      (header_get-set k j v (apply opts default_transport).req_header),
  rw (apply-append opts (with_req_header k v) default_transport) refl,
)

joined-append :
    (ls : List GoString) (l : GoString) → joined (ls ++ l ∷ []) ≡ joined ls ++ (l ++ codes "\n")
unfolding joined
joined-append [] l = append-nil (l ++ codes "\n")
joined-append (x ∷ ls) l =
    rw (joined-append ls l) (sym (append_assoc (x ++ codes "\n") (joined ls) (l ++ codes "\n")))

-- A line goes to the end of the text, and every line has one level.
pub log-lines_text :
    {Level V : Type 0} (level_text : Level → GoString) (text : V → GoString) (level : Level)
    (keyvals : List V) (m : MemoryLogger Level)
    → lines_text (log level_text text level keyvals m)
      ≡ lines_text m
        ++ (codes "[" ++ level_text level ++ codes "]" ++ pairs_text text keyvals ++ codes "\n")
unfolding log lines_text
log-lines_text level_text text level keyvals m = joined-append m.lines _
