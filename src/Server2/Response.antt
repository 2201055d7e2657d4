-- ===== src/Server2/Response.antt =====
-- What the handlers of server2 send back, and `handleError` of server2/server.go.
use smart_web.Base.{ℕ, List, [], ◌∷◌, Bytes, codes}

-- Headers stand in the order in which they are set, by name and value.
pub record Response : Type 0 where
  pub status : ℕ
  pub headers : List (Bytes × Bytes)
  pub body : Bytes

unfoldable pub handle_error : ℕ → Bytes → Response
handle_error status text = record {
  status = status;
  headers = (codes "Content-Type", codes "text/plain, charset=utf-8") ∷ [];
  body = text;
}
