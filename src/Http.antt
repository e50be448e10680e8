-- ===== src/Http.antt =====
-- The parts of a request and of a JSON answer that the handlers read and write (FastAPI's
-- `Request` and `JSONResponse`). Header names are in lower case.
use ollama_queue_proxy.Prelude.{ℕ, String, Option, List, Dict, lookup}

pub record Request : Type 0 where
  pub method : String
  pub path : String
  pub query : String
  pub headers : Dict String
  pub client_host : Option String
  pub request_id : String

unfoldable pub header : Request → String → Option String
header r name = lookup name r.headers

-- What a header says: a text, or the decimal digits of a number.
pub data HeaderValue : Type 0 where
  text : String → HeaderValue
  number : ℕ → HeaderValue

-- `error` and `request_id` are the two keys of an error answer's body.
pub record ErrorResponse : Type 0 where
  pub status_code : ℕ
  pub error : String
  pub request_id : String
  pub headers : Dict HeaderValue

-- A `JSONResponse` with a body from upstream, or a `StreamingResponse`.
pub data Kind : Type 0 where
  json streaming : Kind

pub record Response : Type 0 where
  pub kind : Kind
  pub status_code : ℕ
  pub body : List ℕ
  pub headers : Dict HeaderValue

-- What a handler answers.
pub data Answer : Type 0 where
  upstream : Response → Answer
  error : ErrorResponse → Answer
