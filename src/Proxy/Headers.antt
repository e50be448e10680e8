-- ===== src/Proxy/Headers.antt =====
-- What a host sees of the client's headers.
use ollama_queue_proxy.Prelude.{
  ◌≡◌, String, Option, none, some, ◌&&◌, List, [], ◌∷◌, Dict, lookup, lookup-insert, contains,
  str_eq, eq_iff, if◌then◌else◌, arith,
}
use ollama_queue_proxy.Proxy.{
  without, set_client, forward_headers, strip_request_headers, is_some_text,
}

lookup-without {ℓ} :
    {V : Type ℓ} (strip : List String) (name : String) (d : Dict V)
    → lookup name (without strip d) ≡ (if contains strip name then none else lookup name d)
unfolding without
lookup-without strip name [] = ground arith
lookup-without strip name ((k, v) ∷ d) = ground (arith, lookup-without strip name d, eq_iff k name)

lookup-set_client :
    (client_id : Option String) (name : String) (d : Dict String)
    → lookup name (set_client client_id d)
      ≡ (if str_eq "x-client-id" name && is_some_text client_id then client_id else lookup name d)
unfolding set_client
lookup-set_client none name d = ground arith
lookup-set_client (some s) name d = ground (arith, lookup-insert "x-client-id" name s d)

-- What a host sees of the headers, for every name: `X-Client-ID` is the client that the proxy has
-- made out, if it has, whatever the client sent; of the others those that concern the proxy or the
-- connection, the credential among them, are left out, and the rest is passed on as it came.
pub lookup-forward_headers :
    (client_id : Option String) (name : String) (headers : Dict String)
    → lookup name (forward_headers client_id headers) ≡ (
        if str_eq "x-client-id" name && is_some_text client_id
        then client_id
        else if contains strip_request_headers name
        then none
        else lookup name headers)
unfolding forward_headers
lookup-forward_headers client_id name headers = ground (
  arith,
  lookup-set_client client_id name (without strip_request_headers headers),
  lookup-without strip_request_headers name headers,
)

-- The client's credential never reaches a host.
authorization_stripped :
    (client_id : Option String) (headers : Dict String)
    → lookup "authorization" (forward_headers client_id headers) ≡ none
unfolding strip_request_headers
authorization_stripped client_id headers = lookup-forward_headers client_id "authorization" headers
