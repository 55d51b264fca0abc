-- ===== src/Url.antt =====
-- The three URL parsers of the agent: agent/src/http_url.c, `_parse_endpoint` of connection.c and
-- `_parse_ws_url` of remote_desktop.c. A result is what the out parameters hold when the function
-- returns true; `none` is false.
pub mod Tests
pub mod Bounds
pub mod Endpoint
pub mod RoundTrip
use leo_one.Prelude.{
  ltb, leb, ◌==◌, if◌then◌else◌, length, take, drop, Bytes, bytes, starts_with, find_index, ℕ, suc,
  ◌-◌, Bool, true, false, not, ◌||◌, Option, none, some,
}
use leo_one.Prelude.Int.{ℤ, pos, nonpositive, exceeds}
use leo_one.Prelude.Decimal.{atoi}

pub record Target : Type 0 where
  pub use_ssl : Bool
  pub host : Bytes
  pub port : ℤ
  pub path : Bytes

-- `colon && (!slash || colon < slash)`, with the place of the colon.
abbrev pub port_colon : Option ℕ → Option ℕ → Option ℕ
port_colon none slash = none
port_colon (some c) none = some c
port_colon (some c) (some s) = if ltb c s then some c else none

-- `slash ? slash - p : strlen(p)`
abbrev pub end_of_host : Option ℕ → Bytes → ℕ
end_of_host none p = length p
end_of_host (some s) p = s

-- `strncpy(path, slash ? slash : fallback, path_sz - 1)` and the terminator.
abbrev pub path_field : Option ℕ → Bytes → Bytes → ℕ → Bytes
path_field none p fallback path_sz = take (path_sz - 1) fallback
path_field (some s) p fallback path_sz = take (path_sz - 1) (drop s p)

abbrev pub is_port : ℤ → Bool
is_port port = not (nonpositive port || exceeds port 65535)

abbrev pub fits_host : ℕ → ℕ → Bool
fits_host len host_sz = not (len == 0 || leb host_sz len)

-- `leo_http_parse_url` and `_parse_ws_url` behind the scheme; `fallback_port` is the port where the
-- URL has none.
unfoldable pub parse_authority : Bool → ℕ → Bytes → Option ℕ → Option ℕ → ℕ → ℕ → Option Target
parse_authority ssl fallback_port p slash none host_sz path_sz =
    if fits_host (end_of_host slash p) host_sz
    then some (record {
      use_ssl = ssl;
      host = take (end_of_host slash p) p;
      port = pos fallback_port;
      path = path_field slash p (bytes "/") path_sz;
    })
    else none
parse_authority ssl fallback_port p slash (some colon) host_sz path_sz =
    if not (fits_host colon host_sz)
    then none
    else if not (is_port (atoi (drop (suc colon) p)))
    then none
    else some (record {
      use_ssl = ssl;
      host = take colon p;
      port = atoi (drop (suc colon) p);
      path = path_field slash p (bytes "/") path_sz;
    })

unfoldable pub parse_target : Bool → ℕ → Bytes → ℕ → ℕ → Option Target
unfolding parse_authority
parse_target ssl fallback_port p host_sz path_sz =
    let slash = find_index b'/' p in
    parse_authority ssl fallback_port p slash (port_colon (find_index b':' p) slash) host_sz path_sz

-- `leo_http_parse_url`, for a caller that wants the path.
unfoldable pub http_parse_url : Bytes → ℕ → ℕ → Option Target
http_parse_url url host_sz path_sz =
    if starts_with (bytes "https://") url
    then parse_target true 443 (drop 8 url) host_sz path_sz
    else if starts_with (bytes "http://") url
    then parse_target false 80 (drop 7 url) host_sz path_sz
    else parse_target false 80 url host_sz path_sz

-- `if (strncmp(p, "wss://", 6) == 0) p += 6; else if (strncmp(p, "ws://", 5) == 0) p += 5;`
unfoldable pub strip_ws : Bytes → Bytes
strip_ws url =
    if starts_with (bytes "wss://") url
    then drop 6 url
    else if starts_with (bytes "ws://") url
    then drop 5 url
    else url

-- `_parse_ws_url`; the connection that it describes always uses TLS.
unfoldable pub parse_ws_url : Bytes → ℕ → ℕ → Option Target
unfolding strip_ws
parse_ws_url url host_sz path_sz = parse_target true 443 (strip_ws url) host_sz path_sz

-- `_parse_endpoint`, into buffers that calloc has zeroed. It sets no upper bound on the port, and
-- cuts a host with neither a port nor a path to its buffer.
endpoint_host : Bytes → Option ℕ → Option ℕ → ℕ → Option (Bytes × ℤ)
endpoint_host p slash (some colon) host_sz =
    if leb host_sz colon then none else some (take colon p, atoi (drop (suc colon) p))
endpoint_host p (some slash) none host_sz =
    if leb host_sz slash then none else some (take slash p, pos 443)
endpoint_host p none none host_sz = some (take (host_sz - 1) p, pos 443)

endpoint_result : Option (Bytes × ℤ) → Bytes → Option Target
endpoint_result none path = none
endpoint_result (some (host, port)) path =
    if length host == 0 || nonpositive port
    then none
    else some (record { use_ssl = true; host = host; port = port; path = path })

pub parse_endpoint : Bytes → ℕ → ℕ → Option Target
unfolding strip_ws endpoint_host endpoint_result
parse_endpoint endpoint host_sz path_sz =
    let p = strip_ws endpoint in
    let slash = find_index b'/' p in
    endpoint_result (endpoint_host p slash (port_colon (find_index b':' p) slash) host_sz)
      (path_field slash p (bytes "/ws/agent") path_sz)
