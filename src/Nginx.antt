-- ===== src/Nginx.antt =====
-- The nginx values that the module's code passes round: return codes and the parts of a request
-- that the signals read. The nginx functions themselves are parameters of the files that use them.
use nginx_http_sentinel_modu.Prelude.{ℕ, Bytes, List, Option}

-- NGX_OK, NGX_ERROR, NGX_AGAIN, NGX_BUSY, NGX_DONE, NGX_DECLINED, and an HTTP status.
pub data Rc : Type 0 where
  ok error again busy done declined : Rc
  status : ℕ → Rc

-- The client address by family, as the binary bytes of `struct sockaddr`.
pub data SockAddr : Type 0 where
  inet : Bytes → SockAddr
  inet6 : Bytes → SockAddr
  unix : SockAddr

-- `ngx_table_elt_t`
pub record Header : Type 0 where
  pub hash : ℕ
  pub key : Bytes
  pub value : Bytes

-- The fields of `ngx_http_request_t` and its connection that the module reads. `headers` is the
-- chunked header list; the optional fields are the pointers of `headers_in`, NULL when absent.
pub record Request : Type 0 where
  pub uri : Bytes
  pub method : ℕ
  pub http_version : ℕ
  pub headers : List (List Header)
  pub host : Option Bytes
  pub content_length : Option Bytes
  pub transfer_encoding : Option Bytes
  pub user_agent : Option Bytes
  pub accept : Option Bytes
  pub accept_language : Option Bytes
  pub accept_encoding : Option Bytes
  pub addr_text : Bytes
  pub sockaddr : Option SockAddr
  pub err_status : ℕ
  pub out_status : ℕ
