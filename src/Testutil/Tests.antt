-- ===== src/Testutil/Tests.antt =====
-- A fake request header.
use go_infrastructure.Prelude.{◌≡◌, [], ◌∷◌, codes, lookup, insert, eq_str}
use go_infrastructure.Testutil.{header_get, with_req_header, with_op, new_fake_transport}
use go_infrastructure.Testutil.Fakes.{new_fake_transport-with_req_header}

faked :
    header_get
      (new_fake_transport
        (with_op (codes "/op") ∷ with_req_header (codes "k") (codes "v") ∷ [])).req_header
      (codes "k")
    ≡ codes "v"
unfolding header_get lookup insert eq_str
faked =
    (new_fake_transport-with_req_header (with_op (codes "/op") ∷ []) (codes "k") (codes "v")
      (codes "k")).0
