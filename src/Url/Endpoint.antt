-- ===== src/Url/Endpoint.antt =====
-- What `_parse_endpoint` of agent/src/connection.c accepts.
use leo_one.Prelude.{
  length, length-take, Bytes, bytes, find_index, ℕ, ◌-◌, ◌<◌, ◌≡◌, refl, true, false, Option, none,
  some, arith,
}
use leo_one.Prelude.Int.{ℤ, pos, negsuc, nonpositive}
use leo_one.Url.{
  Target, port_colon, path_field, strip_ws, endpoint_host, endpoint_result, parse_endpoint,
}
use leo_one.Url.Bounds.{length-path_field-lt}

-- A port above 0, with no bound above.
abbrev pub IsPositive : ℤ → Type 0
IsPositive (pos n) = 0 < n
IsPositive (negsuc n) = ⊥

pub record Connects (host_sz path_sz : ℕ) (t : Target) : Type 0 where
  pub host_nonempty : 0 < length t.host
  pub host_fits : length t.host < host_sz
  pub path_fits : length t.path < path_sz
  pub some_port : IsPositive t.port
  pub secure : t.use_ssl ≡ true

endpoint_host-lt :
    (p : Bytes) (slash colon : Option ℕ) (host_sz : ℕ) (host : Bytes) (port : ℤ)
    → 0 < host_sz
    → endpoint_host p slash colon host_sz ≡ some (host, port)
    → length host < host_sz
unfolding endpoint_host
endpoint_host-lt p slash (some colon) host_sz host port h e = ground (arith, length-take colon p)
endpoint_host-lt p (some slash) none host_sz host port h e = ground (arith, length-take slash p)
endpoint_host-lt p none none host_sz host port h e = ground (arith, length-take (host_sz - 1) p)

above_zero-IsPositive : (z : ℤ) → nonpositive z ≡ false → IsPositive z
above_zero-IsPositive (pos n) h = ground arith
above_zero-IsPositive (negsuc n) h = ground arith

endpoint_result-Connects :
    (o : Option (Bytes × ℤ)) (path : Bytes) (host_sz path_sz : ℕ) (t : Target)
    → ((host : Bytes) (port : ℤ) → o ≡ some (host, port) → length host < host_sz)
    → length path < path_sz
    → endpoint_result o path ≡ some t
    → Connects host_sz path_sz t
unfolding endpoint_result
endpoint_result-Connects none path host_sz path_sz t f l e = ground arith
endpoint_result-Connects (some (host, port)) path host_sz path_sz t f l e =
    ground (arith, f host port refl, above_zero-IsPositive port)

-- Whatever `_parse_endpoint` accepts, with buffers that are not empty, the connection is made with
-- TLS, the host is not empty, host and path fit their buffers with the terminator, and the port is
-- above 0.
pub parse_endpoint-Connects :
    (endpoint : Bytes) (host_sz path_sz : ℕ) (t : Target)
    → 0 < host_sz
    → 0 < path_sz
    → parse_endpoint endpoint host_sz path_sz ≡ some t
    → Connects host_sz path_sz t
unfolding parse_endpoint
parse_endpoint-Connects endpoint host_sz path_sz t h k e =
    let p = strip_ws endpoint in
    let slash = find_index b'/' p in
    let colon = port_colon (find_index b':' p) slash in
    endpoint_result-Connects (endpoint_host p slash colon host_sz)
      (path_field slash p (bytes "/ws/agent") path_sz) host_sz path_sz t
      (λ host port. endpoint_host-lt p slash colon host_sz host port h)
      (length-path_field-lt slash p (bytes "/ws/agent") path_sz k) e
