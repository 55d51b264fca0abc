-- ===== src/Enroll/Response/Fields.antt =====
-- agent/src/enroll.c: an accepted answer fills its fields, within their sizes.
use leo_one.Prelude.{
  Bool-cases, length, take, length-take, Bytes, bytes, ℕ, ◌-◌, ◌≤◌, ◌≡◌, refl, ap, ◌≢◌, inl, inr,
  Option, none, some, [], ◌∷◌, arith,
}
use leo_one.Types.{Config, LeoError, ok, err_protocol}
use leo_one.Settings.Fits.{Fits}
use leo_one.Enroll.Response.{
  cert_buf_size, key_buf_size, string_field, with_field, is_created, string_of, copy_response_field,
  copy_key, copy_credentials, copy_fingerprint, copy_endpoint, copy_tenant, copy_fields, copy_data,
  parse_root, parse_enroll_response,
}
use leo_one.Protocol.Tree.{Cjson}
use leo_one.Prelude.Int.{ℤ}

-- The server has named the agent, its tenant, the endpoint and the certificate.
abbrev pub IsNamed : Config → Type 0
IsNamed cfg =
    (length cfg.agent_id ≢ 0)
    × (length cfg.tenant_id ≢ 0)
    × (length cfg.ws_endpoint ≢ 0)
    × (length cfg.ca_fingerprint ≢ 0)

abbrev pub IsAccepted : LeoError × Config × Bytes × Bytes → Type 0
IsAccepted (ok, cfg, cert, key) =
    IsNamed cfg × Fits cfg × (length cert ≤ cert_buf_size - 1) × (length key ≤ key_buf_size - 1)
IsAccepted (_, cfg, cert, key) = Unit

module _ {R : Type 0} (P : R → Type 0) where
  with_field-P :
      (f : Option Bytes) (fail : R) (next : Bytes → R)
      → P fail
      → ((v : Bytes) → f ≡ some v → P (next v))
      → P (with_field f fail next)
  unfolding with_field
  with_field-P none fail next h k = h
  with_field-P (some v) fail next h k = k v refl

length-string_field :
    (dstsz : ℕ) (o : Option Bytes) (v : Bytes)
    → 2 ≤ dstsz
    → string_field dstsz o ≡ some v
    → (length v ≢ 0) × (length v ≤ dstsz - 1)
unfolding string_field
length-string_field dstsz none v h e = absurd cc
length-string_field dstsz (some []) v h e = absurd cc
length-string_field dstsz (some (c ∷ s)) v h e =
    let c_s_cut : take (dstsz - 1) (c ∷ s) ≡ v = ap (λ o. elim o [ none ↦ [] | some x ↦ x ]) e in
    let long = length-take (dstsz - 1) (c ∷ s) in
    let same = ap length c_s_cut in
    (λ z. omega (arith, long, same, z, h), omega (arith, long, same))

module _ {Node : Type 0} (cj : Cjson Node) where
  copied :
      (d : Node) (name : Bytes) (dstsz : ℕ) (v : Bytes)
      → 2 ≤ dstsz
      → copy_response_field cj d name dstsz ≡ some v
      → (length v ≢ 0) × (length v ≤ dstsz - 1)
  unfolding copy_response_field
  copied d name dstsz v h e = length-string_field dstsz (string_of cj (cj.get_item d name)) v h e

  copy_key-IsAccepted :
      (d : Node) (cfg : Config) (cert : Bytes)
      → IsNamed cfg
      → Fits cfg
      → length cert ≤ cert_buf_size - 1
      → IsAccepted (copy_key cj d cfg cert)
  unfolding copy_key
  copy_key-IsAccepted d cfg cert n f c =
      with_field-P IsAccepted (copy_response_field cj d (bytes "client_key_pem") key_buf_size)
        (err_protocol, cfg, cert, []) (λ key. (ok, cfg, cert, key)) tt
        (λ key e. (n, f, c, (copied d (bytes "client_key_pem") key_buf_size key (omega arith) e).1))

  copy_credentials-IsAccepted :
      (d : Node) (cfg : Config) → IsNamed cfg → Fits cfg → IsAccepted (copy_credentials cj d cfg)
  unfolding copy_credentials
  copy_credentials-IsAccepted d cfg n f =
      with_field-P IsAccepted (copy_response_field cj d (bytes "client_cert_pem") cert_buf_size)
        (err_protocol, cfg, [], []) (λ cert. copy_key cj d cfg cert) tt
        (λ cert e.
          copy_key-IsAccepted d cfg cert n f
            (copied d (bytes "client_cert_pem") cert_buf_size cert (omega arith) e).1)

  copy_fingerprint-IsAccepted :
      (d : Node) (cfg : Config)
      → (length cfg.agent_id ≢ 0) × (length cfg.tenant_id ≢ 0) × (length cfg.ws_endpoint ≢ 0)
      → Fits cfg
      → IsAccepted (copy_fingerprint cj d cfg)
  unfolding copy_fingerprint
  copy_fingerprint-IsAccepted d cfg (a, t, w) h =
      with_field-P IsAccepted (copy_response_field cj d (bytes "server_cert_fingerprint") 65)
        (err_protocol, cfg, [], []) (λ f. copy_credentials cj d (record cfg { ca_fingerprint = f }))
        tt
        (λ v e.
          let ok_v = copied d (bytes "server_cert_fingerprint") 65 v (omega arith) e in
          copy_credentials-IsAccepted d (record cfg { ca_fingerprint = v }) (a, t, w, ok_v.0)
            (
              h.0,
              (
                h.1.0,
                (
                  h.1.1.0,
                  (
                    h.1.1.1.0,
                    (h.1.1.1.1.0, (h.1.1.1.1.1.0, (h.1.1.1.1.1.1.0, (h.1.1.1.1.1.1.1.0, ok_v.1)))),
                  ),
                ),
              ),
            ))

  copy_endpoint-IsAccepted :
      (d : Node) (cfg : Config)
      → (length cfg.agent_id ≢ 0) × (length cfg.tenant_id ≢ 0)
      → Fits cfg
      → IsAccepted (copy_endpoint cj d cfg)
  unfolding copy_endpoint
  copy_endpoint-IsAccepted d cfg (a, t) h =
      with_field-P IsAccepted (copy_response_field cj d (bytes "ws_endpoint") 512)
        (err_protocol, cfg, [], []) (λ w. copy_fingerprint cj d (record cfg { ws_endpoint = w })) tt
        (λ v e.
          let ok_v = copied d (bytes "ws_endpoint") 512 v (omega arith) e in
          copy_fingerprint-IsAccepted d (record cfg { ws_endpoint = v }) (a, t, ok_v.0)
            (h.0, (h.1.0, (ok_v.1, h.1.1.1))))

  copy_tenant-IsAccepted :
      (d : Node) (cfg : Config)
      → length cfg.agent_id ≢ 0
      → Fits cfg
      → IsAccepted (copy_tenant cj d cfg)
  unfolding copy_tenant
  copy_tenant-IsAccepted d cfg a h =
      with_field-P IsAccepted (copy_response_field cj d (bytes "tenant_id") 37)
        (err_protocol, cfg, [], []) (λ t. copy_endpoint cj d (record cfg { tenant_id = t })) tt
        (λ v e.
          let ok_v = copied d (bytes "tenant_id") 37 v (omega arith) e in
          copy_endpoint-IsAccepted d (record cfg { tenant_id = v }) (a, ok_v.0)
            (h.0, (ok_v.1, h.1.1)))

  copy_fields-IsAccepted : (d : Node) (cfg : Config) → Fits cfg → IsAccepted (copy_fields cj d cfg)
  unfolding copy_fields
  copy_fields-IsAccepted d cfg h =
      with_field-P IsAccepted (copy_response_field cj d (bytes "agent_id") 37)
        (err_protocol, cfg, [], []) (λ a. copy_tenant cj d (record cfg { agent_id = a })) tt
        (λ v e.
          let ok_v = copied d (bytes "agent_id") 37 v (omega arith) e in
          copy_tenant-IsAccepted d (record cfg { agent_id = v }) ok_v.0 (ok_v.1, h.1))

  copy_data-IsAccepted :
      (o : Option Node) (cfg : Config) → Fits cfg → IsAccepted (copy_data cj o cfg)
  unfolding copy_data
  copy_data-IsAccepted none cfg h = tt
  copy_data-IsAccepted (some d) cfg h = elim (Bool-cases (cj.is_object d)) [
    | inl object_d ↦ rw object_d (copy_fields-IsAccepted d cfg h)
    | inr other ↦ rw other tt
  ]

  parse_root-IsAccepted :
      (o : Option Node) (status : ℤ) (cfg : Config)
      → Fits cfg
      → IsAccepted (parse_root cj o status cfg)
  unfolding parse_root
  parse_root-IsAccepted none status cfg h = tt
  parse_root-IsAccepted (some root) status cfg h = elim (Bool-cases (is_created status)) [
    | inl created ↦ rw created (copy_data-IsAccepted (cj.get_item root (bytes "data")) cfg h)
    | inr refused ↦ rw refused tt
  ]

  pub parse_enroll_response-IsAccepted :
      (text : Bytes) (status : ℤ) (cfg : Config)
      → Fits cfg
      → IsAccepted (parse_enroll_response cj text status cfg)
  unfolding parse_enroll_response
  parse_enroll_response-IsAccepted text status cfg h =
      parse_root-IsAccepted (cj.parse text) status cfg h
