-- ===== src/Enroll/Response.antt =====
-- agent/src/enroll.c: the request as JSON, and what the server answers.
pub mod Fields
use leo_one.Prelude.{
  leb, ◌==◌, if◌then◌else◌, length, take, Bytes, bytes, ℕ, ◌-◌, Bool, false, ◌||◌, Option, none,
  some, [], ◌∷◌,
}
use leo_one.Types.{Config, LeoError, ok, err_protocol, agent_version}
use leo_one.Protocol.Tree.{Json, string, object, end, field, Cjson}
use leo_one.Prelude.Int.{ℤ, pos, negsuc}

-- LEO_CERT_BUF_SIZE and LEO_KEY_BUF_SIZE
abbrev pub cert_buf_size : ℕ
cert_buf_size = 8192

abbrev pub key_buf_size : ℕ
key_buf_size = 8192

-- The object of the request, from the token and the machine's description.
pub enroll_tree : Bytes → Config → Json
enroll_tree token cfg = object (
    field (bytes "enrollment_token") (string token) (
      field (bytes "hostname") (string cfg.hostname) (
        field (bytes "os") (string cfg.os_name) (
          field (bytes "os_version") (string cfg.os_version) (
            field (bytes "arch") (string cfg.arch) (
              field (bytes "hardware_id") (string cfg.hardware_id)
                (field (bytes "agent_version") (string agent_version) end)))))))

-- The text, if it fits its buffer with the terminator.
fits_buffer : ℕ → Option Bytes → Option Bytes
fits_buffer bufsz none = none
fits_buffer bufsz (some text) = if leb bufsz (length text) then none else some text

-- A string that is not empty, cut to its buffer.
string_field : ℕ → Option Bytes → Option Bytes
string_field dstsz none = none
string_field dstsz (some []) = none
string_field dstsz (some (c ∷ s)) = some (take (dstsz - 1) (c ∷ s))

-- A copied field goes into the state; the copies behind a failure are not made.
with_field : {R : Type 0} → Option Bytes → R → (Bytes → R) → R
with_field none fail next = fail
with_field (some v) fail next = next v

abbrev pub Parsed : Type 0
Parsed = LeoError × Config × Bytes × Bytes

-- `http_status != 200 && http_status != 201`
is_created : ℤ → Bool
is_created (pos n) = n == 200 || n == 201
is_created (negsuc n) = false

module _ {Node : Type 0} (cj : Cjson Node) where
  -- `_build_enroll_request`
  unfoldable pub build_enroll_request : ℕ → Bytes → Config → Option Bytes
  unfolding fits_buffer enroll_tree
  build_enroll_request bufsz token cfg = fits_buffer bufsz (cj.print (enroll_tree token cfg))

  string_of : Option Node → Option Bytes
  string_of none = none
  string_of (some j) = cj.string j

  -- `_copy_response_field`: what is copied, or none where the field is missing, empty or no string.
  pub copy_response_field : Node → Bytes → ℕ → Option Bytes
  unfolding string_field string_of
  copy_response_field data_node name dstsz =
      string_field dstsz (string_of (cj.get_item data_node name))

  copy_key : Node → Config → Bytes → Parsed
  unfolding with_field copy_response_field
  copy_key d cfg cert =
      with_field (copy_response_field d (bytes "client_key_pem") key_buf_size)
        (err_protocol, cfg, cert, []) (λ key. (ok, cfg, cert, key))

  copy_credentials : Node → Config → Parsed
  unfolding copy_key
  copy_credentials d cfg =
      with_field (copy_response_field d (bytes "client_cert_pem") cert_buf_size)
        (err_protocol, cfg, [], []) (λ cert. copy_key d cfg cert)

  copy_fingerprint : Node → Config → Parsed
  unfolding copy_credentials
  copy_fingerprint d cfg =
      with_field (copy_response_field d (bytes "server_cert_fingerprint") 65)
        (err_protocol, cfg, [], []) (λ f. copy_credentials d (record cfg { ca_fingerprint = f }))

  copy_endpoint : Node → Config → Parsed
  unfolding copy_fingerprint
  copy_endpoint d cfg =
      with_field (copy_response_field d (bytes "ws_endpoint") 512) (err_protocol, cfg, [], [])
        (λ w. copy_fingerprint d (record cfg { ws_endpoint = w }))

  copy_tenant : Node → Config → Parsed
  unfolding copy_endpoint
  copy_tenant d cfg =
      with_field (copy_response_field d (bytes "tenant_id") 37) (err_protocol, cfg, [], [])
        (λ t. copy_endpoint d (record cfg { tenant_id = t }))

  -- The chain of `&&`, from the agent's identifier on.
  copy_fields : Node → Config → Parsed
  unfolding copy_tenant
  copy_fields d cfg =
      with_field (copy_response_field d (bytes "agent_id") 37) (err_protocol, cfg, [], [])
        (λ a. copy_tenant d (record cfg { agent_id = a }))

  copy_data : Option Node → Config → Parsed
  unfolding copy_fields
  copy_data none cfg = (err_protocol, cfg, [], [])
  copy_data (some d) cfg = if cj.is_object d then copy_fields d cfg else (err_protocol, cfg, [], [])

  parse_root : Option Node → ℤ → Config → Parsed
  unfolding copy_data is_created
  parse_root none status cfg = (err_protocol, cfg, [], [])
  parse_root (some root) status cfg =
      if is_created status
      then copy_data (cj.get_item root (bytes "data")) cfg
      else (err_protocol, cfg, [], [])

  -- `_parse_enroll_response`: the result, the configuration, the certificate and the key.
  unfoldable pub parse_enroll_response : Bytes → ℤ → Config → Parsed
  unfolding parse_root
  parse_enroll_response json_str status cfg = parse_root (cj.parse json_str) status cfg
