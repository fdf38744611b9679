-- ===== src/Server/Response.antt =====
-- The response of net/http as its handlers write it, kept in a state by a `Writer`.
use go_infrastructure.Prelude.{ℕ, ◌≡◌, Option, none, some, List, ◌++◌, GoString, codes, insert}

-- The status is `none` until the first `WriteHeader` or `Write`.
pub record Response : Type 0 where
  pub header : List (GoString × GoString)
  pub status : Option ℕ
  pub body : GoString

unfoldable pub set_header : GoString → GoString → Response → Response
set_header name value r = record r { header = insert name value r.header }

-- `WriteHeader`: the first call counts.
unfoldable pub write_header : ℕ → Response → Response
write_header code r = elim (r.status) [ some s ↦ r | none ↦ record r { status = some code } ]

-- `Write`, with the status 200 where none is set.
unfoldable pub write : GoString → Response → Response
unfolding write_header
write text r = record (write_header 200 r) { body = r.body ++ text }

-- `http.Error`, on a response with no Content-Length.
unfoldable pub error : GoString → ℕ → Response → Response
unfolding set_header write_header write
error msg code r = write (msg ++ codes "\n") (
    write_header code (
      set_header (codes "X-Content-Type-Options") (codes "nosniff")
        (set_header (codes "Content-Type") (codes "text/plain; charset=utf-8") r)))

pub record Writer (W : Type 0) : Type 0 where
  pub response : W → Response
  pub set_response : Response → W → W
  pub response-set_response : (r : Response) (w : W) → response (set_response r w) ≡ r

-- A response with no status yet that gets a header, a status and a body has that status and no
-- other body.
pub status-write_header :
    (name value text : GoString) (code : ℕ) (r : Response)
    → r.status ≡ none
    → ((write text (write_header code (set_header name value r))).status ≡ some code)
      × ((write text (write_header code (set_header name value r))).body ≡ r.body ++ text)
unfolding set_header write_header write
status-write_header name value text code r e = (rw e, rw e)
