-- ===== src/Url/Bounds.antt =====
-- What a parsed target is good for: every field fits its buffer, and the port is a TCP port.
use leo_one.Prelude.{
  Bool-cases, Option-cases, length, drop, length-take, Bytes, bytes, starts_with, find_index, ℕ,
  suc, ◌-◌, ◌≤◌, ◌<◌, ◌≡◌, refl, inl, inr, Bool, true, false, Option, none, some, [], ◌∷◌, arith,
}
use leo_one.Prelude.Int.{ℤ, pos, negsuc}
use leo_one.Url.{
  Target, port_colon, end_of_host, path_field, is_port, parse_authority, parse_target,
  http_parse_url, strip_ws, parse_ws_url,
}
use leo_one.Prelude.Decimal.{atoi}

-- A port from 1 to 65535.
abbrev pub IsTcpPort : ℤ → Type 0
IsTcpPort (pos n) = (0 < n) × (n ≤ 65535)
IsTcpPort (negsuc n) = ⊥

pub record Fits (host_sz path_sz : ℕ) (t : Target) : Type 0 where
  pub host_nonempty : 0 < length t.host
  pub host_fits : length t.host < host_sz
  pub path_fits : length t.path < path_sz
  pub tcp_port : IsTcpPort t.port

is_port-IsTcpPort : (z : ℤ) → is_port z ≡ true → IsTcpPort z
is_port-IsTcpPort (pos n) h = ground arith
is_port-IsTcpPort (negsuc n) h = cc

pub length-path_field-lt :
    (slash : Option ℕ) (p fallback : Bytes) (path_sz : ℕ)
    → 0 < path_sz
    → length (path_field slash p fallback path_sz) < path_sz
length-path_field-lt none p fallback path_sz h = omega (arith, length-take (path_sz - 1) fallback)
length-path_field-lt (some s) p fallback path_sz h =
    omega (arith, length-take (path_sz - 1) (drop s p))

find_index-lt : (c : ℕ) (s : Bytes) (i : ℕ) → find_index c s ≡ some i → i < length s
unfolding find_index
find_index-lt c [] i h = cc
find_index-lt c (x ∷ s) i h = elim (Option-cases (find_index c s)) [
  | inl e ↦ ground arith
  | inr (j, e) ↦ ground (arith, find_index-lt c s j e)
]

end_of_host-le : (p : Bytes) → end_of_host (find_index b'/' p) p ≤ length p
end_of_host-le p = elim (Option-cases (find_index b'/' p)) [
  | inl e ↦ rw e (omega arith)
  | inr (i, e) ↦ rw e (omega (arith, find_index-lt b'/' p i e))
]

parse_authority-Fits :
    (ssl : Bool) (fallback : ℕ) (p : Bytes) (slash colon : Option ℕ) (host_sz path_sz : ℕ)
    (t : Target)
    → 0 < path_sz
    → IsTcpPort (pos fallback)
    → end_of_host slash p ≤ length p
    → ((c : ℕ) → colon ≡ some c → c ≤ length p)
    → parse_authority ssl fallback p slash colon host_sz path_sz ≡ some t
    → Fits host_sz path_sz t
unfolding parse_authority
parse_authority-Fits ssl fallback p slash none host_sz path_sz t hp hf he hc h = ground (
  arith,
  length-path_field-lt slash p (bytes "/") path_sz hp,
  length-take (end_of_host slash p) p,
)
parse_authority-Fits ssl fallback p slash (some colon) host_sz path_sz t hp hf he hc h = ground (
  arith,
  length-path_field-lt slash p (bytes "/") path_sz hp,
  length-take colon p,
  hc colon refl,
  is_port-IsTcpPort (atoi (drop (suc colon) p)),
)

colon-le :
    (p : Bytes) (c : ℕ) → port_colon (find_index b':' p) (find_index b'/' p) ≡ some c → c ≤ length p
colon-le p c h = elim (Option-cases (find_index b':' p)) [
  | inl e ↦ ground arith
  | inr (i, e) ↦ ground (arith, find_index-lt b':' p i e)
]

parse_target-Fits :
    (ssl : Bool) (fallback : ℕ) (p : Bytes) (host_sz path_sz : ℕ) (t : Target)
    → 0 < path_sz
    → IsTcpPort (pos fallback)
    → parse_target ssl fallback p host_sz path_sz ≡ some t
    → Fits host_sz path_sz t
unfolding parse_target
parse_target-Fits ssl fallback p host_sz path_sz t hp hf h =
    parse_authority-Fits ssl fallback p (find_index b'/' p) _ host_sz path_sz t hp hf
      (end_of_host-le p) (colon-le p) h

-- Whatever `leo_http_parse_url` accepts, with a path buffer that is not empty, the host is not empty, host and path fit their buffers with
-- the terminator, and the port is a TCP port.
pub http_parse_url-Fits :
    (url : Bytes) (host_sz path_sz : ℕ) (t : Target)
    → 0 < path_sz
    → http_parse_url url host_sz path_sz ≡ some t
    → Fits host_sz path_sz t
unfolding http_parse_url
http_parse_url-Fits url host_sz path_sz t hp h =
    elim (Bool-cases (starts_with (bytes "https://") url)) [
      | inl https ↦
          parse_target-Fits true 443 (drop 8 url) host_sz path_sz t hp (omega arith) (ground arith)
      | inr other ↦ elim (Bool-cases (starts_with (bytes "http://") url)) [
        | inl http ↦
            parse_target-Fits false 80 (drop 7 url) host_sz path_sz t hp (omega arith)
              (ground arith)
        | inr bare ↦
            parse_target-Fits false 80 url host_sz path_sz t hp (omega arith) (ground arith)
      ]
    ]

-- Whatever the parser of a remote desktop URL accepts, with a path buffer that is not empty, the host
-- is not empty, host and path fit their buffers with the terminator, and the port is a TCP port.
pub parse_ws_url-Fits :
    (url : Bytes) (host_sz path_sz : ℕ) (t : Target)
    → 0 < path_sz
    → parse_ws_url url host_sz path_sz ≡ some t
    → Fits host_sz path_sz t
unfolding parse_ws_url
parse_ws_url-Fits url host_sz path_sz t hp h =
    parse_target-Fits true 443 (strip_ws url) host_sz path_sz t hp (omega arith) h
