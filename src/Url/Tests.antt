-- ===== src/Url/Tests.antt =====
-- URLs that are accepted.
use leo_one.Prelude.{Bytes, bytes, starts_with, find_index, ◌≡◌, refl, true, some, ◌++◌, arith}
use leo_one.Prelude.Int.{pos}
use leo_one.Url.{
  Target, parse_authority, parse_target, http_parse_url, strip_ws, endpoint_host, endpoint_result,
  parse_endpoint,
}
use leo_one.Url.RoundTrip.{scheme, authority, http_parse_url-parts}
use leo_one.Prelude.Decimal.{atoi}

abbrev pub file_url : Bytes
file_url = bytes "https://files.example:8443/a?t=1"

abbrev pub file_target : Target
file_target = record {
  use_ssl = true;
  host = bytes "files.example";
  port = pos 8443;
  path = bytes "/a?t=1";
}

pub file_url_parsed : http_parse_url file_url 256 1024 ≡ some file_target
unfolding http_parse_url parse_target parse_authority starts_with find_index atoi
file_url_parsed = refl

http_parse_url-parts_example :
    http_parse_url (scheme true ++ authority (bytes "files.example") 8443 (bytes "a?t=1")) 256 1024
    ≡ some file_target
http_parse_url-parts_example =
    http_parse_url-parts true (bytes "files.example") 8443 (bytes "a?t=1") 256 1024 (ground arith)
      (ground arith) (omega arith) (omega arith) (omega arith) (omega arith) (omega arith)

abbrev agent_target : Target
agent_target = record {
  use_ssl = true;
  host = bytes "backend";
  port = pos 8443;
  path = bytes "/ws/agent";
}

endpoint_parsed : parse_endpoint (bytes "wss://backend:8443") 256 256 ≡ some agent_target
unfolding parse_endpoint strip_ws endpoint_host endpoint_result starts_with find_index atoi
endpoint_parsed = refl
