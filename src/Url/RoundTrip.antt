-- ===== src/Url/RoundTrip.antt =====
-- A URL that is put together from its parts is taken apart into them.
use leo_one.Prelude.{
  length, take, drop, All, length-append, take-of-le, drop-append_eq, take-append_eq, Bytes, bytes,
  starts_with, find_index, is_digit, ℕ, suc, ◌+◌, ◌-◌, ◌≤◌, ◌<◌, ◌≡◌, refl, sym, ap, ◌∙◌, ◌≢◌, Bool,
  true, false, some, [], ◌∷◌, ◌++◌, append_assoc, arith,
}
use leo_one.Prelude.Int.{pos}
use leo_one.Prelude.Decimal.{decimal, atoi, atoi-decimal, decimal-is_digit}
use leo_one.Url.{port_colon, parse_authority, parse_target, http_parse_url}

abbrev pub Lacks : ℕ → Bytes → Type 0
Lacks b = All (λ c. c ≢ b)

-- The byte stands first at a place if what is before it lacks it.
find_index-append :
    (b : ℕ) (s t : Bytes) (i j : ℕ)
    → Lacks b s
    → find_index b t ≡ some i
    → j ≡ length s + i
    → find_index b (s ++ t) ≡ some j
unfolding find_index
find_index-append b [] t i j h e k = e ∙ ap some (omega arith)
find_index-append b (c ∷ s) t i j h e k =
    ground (arith, h.0, find_index-append b s t i (j - 1) h.1 e)

digits-Lacks : (b : ℕ) (s : Bytes) → is_digit b ≡ false → All (λ c. is_digit c ≡ true) s → Lacks b s
digits-Lacks b [] h d = tt
digits-Lacks b (c ∷ s) h d = ((λ e. ground arith), digits-Lacks b s h d.1)

-- `http[s]://host:port/query`
abbrev pub scheme : Bool → Bytes
scheme true = bytes "https://"
scheme false = bytes "http://"

abbrev pub authority : Bytes → ℕ → Bytes → Bytes
authority host port query = host ++ (b':' ∷ (decimal port ++ (b'/' ∷ query)))

parse_authority_parts :
    (ssl : Bool) (fallback : ℕ) (p : Bytes) (s c port host_sz path_sz : ℕ) (host path : Bytes)
    → atoi (drop (suc c) p) ≡ pos port
    → take c p ≡ host
    → take (path_sz - 1) (drop s p) ≡ path
    → 0 < c
    → c < host_sz
    → 0 < port
    → port ≤ 65535
    → parse_authority ssl fallback p (some s) (some c) host_sz path_sz
      ≡ some (record { use_ssl = ssl; host = host; port = pos port; path = path })
unfolding parse_authority
parse_authority_parts ssl fallback p s c port host_sz path_sz host path a t d h0 h1 p0 p1 =
    ground arith

slash_at :
    (host : Bytes) (port : ℕ) (query : Bytes)
    → Lacks b'/' host
    → find_index b'/' (authority host port query) ≡ some (length host + (1 + length (decimal port)))
unfolding find_index
slash_at host port query ls =
    find_index-append b'/' host _ (1 + length (decimal port)) _ ls after_host refl
  where
    after_host :
        find_index b'/' (b':' ∷ (decimal port ++ (b'/' ∷ query))) ≡ some (1 + length (decimal port))
    after_host =
        find_index-append b'/' (b':' ∷ decimal port) (b'/' ∷ query) 0 (1 + length (decimal port))
          ((λ e. ground arith), digits-Lacks b'/' (decimal port) refl (decimal-is_digit port)) refl
          (omega arith)

colon_at :
    (host : Bytes) (port : ℕ) (query : Bytes)
    → Lacks b':' host
    → find_index b':' (authority host port query) ≡ some (length host)
unfolding find_index
colon_at host port query lc = find_index-append b':' host _ 0 (length host) lc refl (omega arith)

drop_past : (xs : Bytes) (c : ℕ) (ys : Bytes) → drop (suc (length xs)) (xs ++ (c ∷ ys)) ≡ ys
drop_past [] c ys = refl
drop_past (x ∷ xs) c ys = drop_past xs c ys

authority_parts :
    (ssl : Bool) (fallback : ℕ) (host : Bytes) (port : ℕ) (query : Bytes) (host_sz path_sz : ℕ)
    → Lacks b'/' host
    → Lacks b':' host
    → 0 < length host
    → length host < host_sz
    → length query + 1 < path_sz
    → 0 < port
    → port ≤ 65535
    → parse_target ssl fallback (authority host port query) host_sz path_sz
      ≡ some (record { use_ssl = ssl; host = host; port = pos port; path = b'/' ∷ query })
unfolding parse_target
authority_parts ssl fallback host port query host_sz path_sz ls lc h0 h1 h2 p0 p1 =
    let p = authority host port query in
    let s = length host + (1 + length (decimal port)) in
    let number : atoi (drop (suc (length host)) p) ≡ pos port =
      ap atoi (drop_past host b':' (decimal port ++ (b'/' ∷ query)))
      ∙ atoi-decimal port (b'/' ∷ query) (omega arith) refl in
    let rest : drop s p ≡ b'/' ∷ query =
      ap (drop s) (sym (append_assoc host (b':' ∷ decimal port) (b'/' ∷ query)))
      ∙ drop-append_eq s (host ++ (b':' ∷ decimal port)) (b'/' ∷ query)
          (omega (arith, length-append host (b':' ∷ decimal port))) in
    let colon_first : port_colon (some (length host)) (some s) ≡ some (length host) =
      ground arith in
    rw (slash_at host port query ls, colon_at host port query lc)
      (ap (λ k. parse_authority ssl fallback p (some s) k host_sz path_sz) colon_first
        ∙ parse_authority_parts ssl fallback p s (length host) port host_sz path_sz host
            (b'/' ∷ query) number (take-append_eq (length host) host _ refl)
            (ap (take (path_sz - 1)) rest ∙ take-of-le (path_sz - 1) (b'/' ∷ query) (omega arith))
            h0 h1 p0 p1)

-- `leo_http_parse_url` takes `http[s]://host:port/query` apart into the parts it was put together
-- from, where the host is not empty and has no slash and no colon, it and the path fit their buffers,
-- and the port is a TCP port.
pub http_parse_url-parts :
    (ssl : Bool) (host : Bytes) (port : ℕ) (query : Bytes) (host_sz path_sz : ℕ)
    → Lacks b'/' host
    → Lacks b':' host
    → 0 < length host
    → length host < host_sz
    → length query + 1 < path_sz
    → 0 < port
    → port ≤ 65535
    → http_parse_url (scheme ssl ++ authority host port query) host_sz path_sz
      ≡ some (record { use_ssl = ssl; host = host; port = pos port; path = b'/' ∷ query })
unfolding http_parse_url starts_with
http_parse_url-parts true host port query host_sz path_sz =
    authority_parts true 443 host port query host_sz path_sz
http_parse_url-parts false host port query host_sz path_sz =
    authority_parts false 80 host port query host_sz path_sz
