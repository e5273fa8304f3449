-- ===== src/Sinkhole/Hosts.antt =====
-- `_safe_filename`, `_safe_host` and the names of an analysis' network and NAT chain, of
-- backend/app/sinkhole.py.
pub mod Safe
use whs_dynamic.Base.{
  ℕ, ◌+◌, ◌-◌, List, [], ◌∷◌, ◌++◌, Option, none, some, Bool, true, false, ◌&&◌, ◌||◌, Text, codes,
  map, take, length, filter_by, all, lower, ltb, leb, eqb, if◌then◌else◌,
}

-- `[A-Za-z0-9]`
unfoldable pub is_alnum : ℕ → Bool
is_alnum c = leb b'A' c && leb c b'Z' || leb b'a' c && leb c b'z' || leb b'0' c && leb c b'9'

-- `[A-Za-z0-9.-]`
unfoldable pub is_host_code : ℕ → Bool
is_host_code c = is_alnum c || eqb c b'.' || eqb c b'-'

-- `re.sub(r"[^A-Za-z0-9.-]", "_", name)[:100]`
unfoldable pub safe_filename : Text → Text
safe_filename name = take 100 (map (λ c. if is_host_code c then c else b'_') name)

abbrev pub invalid_sni : Text
invalid_sni = codes "invalid-sni.invalid"

-- `hostname and _SAFE_HOSTNAME_RE.fullmatch(hostname)`, with the pattern `^[A-Za-z0-9.-]{1,253}$`.
unfoldable pub safe_host : Option Text → Text
safe_host none = invalid_sni
safe_host (some hostname) =
    if leb 1 (length hostname) && leb (length hostname) 253 && all is_host_code hostname
    then hostname
    else invalid_sni

-- `re.sub(r"[^A-Za-z0-9]", "", analysis_id)[:8].lower() or "default"`
unfoldable pub network_suffix : Text → Text
network_suffix analysis_id = elim (lower (take 8 (filter_by is_alnum analysis_id))) [
  | [] ↦ codes "default"
  | c ∷ s ↦ c ∷ s
]

-- `c.upper()` on ASCII.
unfoldable pub upper_code : ℕ → ℕ
upper_code c = if leb b'a' c && leb c b'z' then c - 32 else c

unfoldable pub docker_network_name : Text → Text
docker_network_name analysis_id = codes "dast-sh-" ++ network_suffix analysis_id

unfoldable pub nat_chain_name : Text → Text
nat_chain_name analysis_id = codes "DAST_SH_" ++ map upper_code (network_suffix analysis_id)
