-- ===== src/Signals/Network.antt =====
-- `build_network_signals` of backend/app/signals.py. `shannon_entropy`, in hundredths of a bit, and the
-- search for credentials in a capture are arguments.
pub mod Retries
use whs_dynamic.Base.{
  ℕ, List, [], ◌∷◌, ◌++◌, Option, none, some, Bool, true, false, ◌&&◌, not, Text, codes, String,
  ◌==◌, nat_eq, list_eq, string_eq, contains, any, map, filter_by, has_text, ltb, eqb, distinct,
  sort_by, length, tally, merge_into, if◌then◌else◌,
}
use whs_dynamic.Event.{Data, Event}
use whs_dynamic.Signals.Merge.{Flow, Capture}
use whs_dynamic.Signals.Files.{text_of, typed, top_of}

-- `_EXFIL_DOMAINS`
abbrev pub exfil_domains : List Text
exfil_domains =
    codes "webhook.site"
    ∷ codes "discord.com"
    ∷ codes "telegram.org"
    ∷ codes "pastebin.com"
    ∷ codes "ngrok.io"
    ∷ codes "ngrok-free.app"
    ∷ codes "requestbin.com"
    ∷ codes "transfer.sh"
    ∷ codes "file.io"
    ∷ codes "ptpb.pw"
    ∷ codes "0x0.st"
    ∷ []

unfoldable pub is_exfil : Text → Bool
is_exfil name = any (λ known. has_text name known) exfil_domains

pub record Bypass : Type 0 where
  pub stage : String
  pub dst_ip : Text

-- `{ip for ips in dns_answers.values() for ip in ips}`
unfoldable pub resolved_ips : List (Text × List Text) → List Text
resolved_ips [] = []
resolved_ips ((name, ips) ∷ answers) = ips ++ resolved_ips answers

-- `ip_hardcode_bypass_attempts`
unfoldable pub bypass_attempts : List Text → List Event → List Bypass
unfolding text_of
bypass_attempts resolved [] = []
bypass_attempts resolved (e ∷ events) =
    let rest = bypass_attempts resolved events in
    elim (text_of (codes "dst_ip") e.payload) [
      | none ↦ rest
      | some ip ↦
          if not (ip == []) && not (contains resolved ip)
          then record { stage = e.stage; dst_ip = ip } ∷ rest
          else rest
    ]

-- `exfil_matches`, of the domains and the sinkhole's hosts.
unfoldable pub exfil_matches : List Text → List Capture → List Text
unfolding is_exfil distinct
exfil_matches dns_domains captures =
    sort_by (λ d. d)
      (distinct (
        filter_by is_exfil dns_domains
        ++ filter_by is_exfil
            (filter_by (λ h. not (h == [])) (map (λ (r : Capture). r.host) captures))))

-- The counts of the destinations and of the domains.
unfoldable pub target_counts : List Flow → List Text → List (Text × ℕ)
target_counts pcap_flows dns_domains =
    merge_into (tally (map (λ (f : Flow). f.dst) pcap_flows) []) (tally dns_domains [])

-- `retry_patterns`
unfoldable pub retry_patterns : List Flow → List Text → List (Text × ℕ)
unfolding target_counts
retry_patterns pcap_flows dns_domains =
    filter_by (λ c. ltb 3 c.1) (target_counts pcap_flows dns_domains)

-- `not_implemented` where there is no capture.
pub data BodyPatterns (Matches : Type 0) : Type 0 where
  not_implemented : BodyPatterns Matches
  success : List (Capture × Matches) → BodyPatterns Matches

pub record NetworkSignals (Matches : Type 0) : Type 0 where
  pub destinations : List Flow
  pub dns_domains : List Text
  pub domain_entropy : List (Text × ℕ)
  pub exfil_channel_matches : List Text
  pub http_body_credential_patterns : BodyPatterns Matches
  pub tls_sni_records : List Data
  pub sni_ip_mismatch : List Data
  pub retry_failure_patterns : List (Text × ℕ)
  pub ip_hardcode_bypass_attempts : List Bypass
  pub connection_events : ℕ

module _ {Matches : Type 0} (entropy : Text → ℕ) (credential_matches : Capture → Matches) where
  unfoldable pub body_patterns : List Capture → BodyPatterns Matches
  body_patterns [] = not_implemented
  body_patterns (r ∷ captures) = success (map (λ c. (c, credential_matches c)) (r ∷ captures))

  -- `build_network_signals`
  unfoldable pub build_network_signals :
      List Event
      → List Flow
      → List Text
      → List Data
      → List Data
      → List Capture
      → List (Text × List Text)
      → NetworkSignals Matches
  unfolding resolved_ips bypass_attempts exfil_matches retry_patterns body_patterns top_of
  build_network_signals events pcap_flows dns_domains sni mismatches captures dns_answers =
      let connections = typed "network.connect" events in
      record {
        destinations = pcap_flows;
        dns_domains = dns_domains;
        domain_entropy = map (λ d. (d, entropy (top_of d))) dns_domains;
        exfil_channel_matches = exfil_matches dns_domains captures;
        http_body_credential_patterns = body_patterns captures;
        tls_sni_records = sni;
        sni_ip_mismatch = mismatches;
        retry_failure_patterns = retry_patterns pcap_flows dns_domains;
        ip_hardcode_bypass_attempts = bypass_attempts (resolved_ips dns_answers) connections;
        connection_events = length connections;
      }
