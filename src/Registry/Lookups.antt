-- ===== src/Registry/Lookups.antt =====
-- `fetch_registry_meta`, `fetch_download_stats`, `_whois_query`, `whois_lookup` and `domain_reputation` of
-- backend/app/registry.py. What the HTTP requests and the sockets give, the patterns, and the dates, in
-- whole days up to now, are arguments.
pub mod History
use whs_dynamic.Base.{
  ℕ, zero, suc, ◌-◌, List, [], ◌∷◌, ◌++◌, Option, none, some, Bool, true, false, Text, codes, take,
  drop, length, map, sort_by, ◌==◌, nat_eq, list_eq, Bytes, if◌then◌else◌,
}

pub record Release : Type 0 where
  pub version : Text
  pub upload_time : Option Text

unfoldable pub or_text : Option Text → Text
or_text none = []
or_text (some s) = s

abbrev pub upload_key : Release → Text
upload_key e = or_text e.upload_time

-- The `info` and the `releases` of the response, each release by the time of its first file, if it has one.
pub record Response : Type 0 where
  pub name : Option Text
  pub author : Option Text
  pub author_email : Option Text
  pub maintainer : Option Text
  pub maintainer_email : Option Text
  pub project_urls : Option (List (Text × Text))
  pub version : Option Text
  pub releases : List (Text × List (Option Text))

-- The releases that have a file.
unfoldable pub released : List (Text × List (Option Text)) → List Release
released [] = []
released ((v, []) ∷ releases) = released releases
released ((v, t ∷ files) ∷ releases) = record { version = v; upload_time = t } ∷ released releases

unfoldable pub history_of : List (Text × List (Option Text)) → List Release
unfolding released or_text
history_of releases = sort_by upload_key (released releases)

-- `next((e for e in history if e["version"] == target_version), None)`
unfoldable pub find_release : Text → List Release → Option Release
find_release version [] = none
find_release version (e ∷ history) =
    let rest = find_release version history in if e.version == version then some e else rest

-- `target["upload_time"] if target else None`
unfoldable pub published_of : Option Release → Option Text
published_of none = none
published_of (some e) = e.upload_time

-- An empty time is none.
unfoldable pub days_of : (Text → Option ℕ) → Option Text → Option ℕ
days_of days_since none = none
days_of days_since (some []) = none
days_of days_since (some (c ∷ s)) = days_since (c ∷ s)

unfoldable pub first_published_of : List Release → Option Text
first_published_of [] = none
first_published_of (e ∷ history) = e.upload_time

-- `a or b`
unfoldable pub or_version : Option Text → Option Text → Option Text
or_version none b = b
or_version (some []) b = b
or_version (some (c ∷ s)) b = some (c ∷ s)

pub record RegistryMeta : Type 0 where
  pub name : Option Text
  pub author : Option Text
  pub author_email : Option Text
  pub maintainer : Option Text
  pub maintainer_email : Option Text
  pub project_urls : Option (List (Text × Text))
  pub first_published : Option Text
  pub target_version : Option Text
  pub target_published : Option Text
  pub days_since_publish : Option ℕ
  pub release_count : ℕ
  pub release_history : List Release

-- `history[-n:]`
unfoldable pub last_of : {A : Type 0} → ℕ → List A → List A
last_of n xs = drop (length xs - n) xs

unfoldable pub target_of : Option Text → List Release → Option Release
unfolding find_release
target_of none history = none
target_of (some version) history = find_release version history

-- `fetch_registry_meta`; `none` is the request's failure.
unfoldable pub fetch_registry_meta :
    (Text → Option ℕ) → Option Text → Option Response → Option RegistryMeta
unfolding history_of published_of days_of first_published_of or_version last_of target_of
fetch_registry_meta days_since version none = none
fetch_registry_meta days_since version (some r) =
    let history = history_of r.releases in
    let target_version = or_version version r.version in
    let published = published_of (target_of target_version history) in
    some record {
      name = r.name;
      author = r.author;
      author_email = r.author_email;
      maintainer = r.maintainer;
      maintainer_email = r.maintainer_email;
      project_urls = r.project_urls;
      first_published = first_published_of history;
      target_version = target_version;
      target_published = published;
      days_since_publish = days_of days_since published;
      release_count = length history;
      release_history = last_of 20 history;
    }

pub data Lookup (A : Type 0) : Type 0 where
  not_implemented unavailable : Lookup A
  success : A → Lookup A

-- `fetch_download_stats`, of the response's data.
unfoldable pub fetch_download_stats : {Stats : Type 0} → Option Stats → Lookup Stats
fetch_download_stats none = unavailable
fetch_download_stats (some stats) = success stats

-- `domain_reputation`, of the key, which is not empty, and the response.
unfoldable pub domain_reputation : {Stats : Type 0} → Option Text → Option Stats → Lookup Stats
domain_reputation none response = not_implemented
domain_reputation (some key) none = unavailable
domain_reputation (some key) (some stats) = success stats

-- The loop of `_whois_query`, on the chunks up to the empty one; `none` is an OSError.
unfoldable pub whois_query : List (Option Bytes) → Option Bytes
whois_query [] = some []
whois_query (none ∷ chunks) = none
whois_query (some [] ∷ chunks) = some []
whois_query (some (b ∷ bs) ∷ chunks) = elim (whois_query chunks) [
  | none ↦ none
  | some rest ↦ some ((b ∷ bs) ++ rest)
]

pub record Whois : Type 0 where
  pub whois_server : Text
  pub creation_date : Option Text
  pub age_days : Option ℕ
  pub raw : Text

-- The searches in the answers, and the ages that a date and a year give.
pub record Patterns : Type 0 where
  pub referral : Text → Option Text
  pub creation_date : Text → Option Text
  pub age_of_date : Text → Option ℕ
  pub age_of_year : Text → Option ℕ

-- The age of a date that can be read, or else of the first year in it.
unfoldable pub age_of : Patterns → Text → Option ℕ
age_of p date = elim (p.age_of_date date) [ none ↦ p.age_of_year date | some age ↦ some age ]

-- `whois_lookup`, of the decoder, the answer of IANA and those of the servers.
unfoldable pub whois_lookup :
    Patterns → (Bytes → Text) → List (Option Bytes) → (Text → List (Option Bytes)) → Lookup Whois
unfolding whois_query age_of
whois_lookup p decode iana answer = elim (whois_query iana) [
  | none ↦ unavailable
  | some referral ↦ elim (p.referral (decode referral)) [
    | none ↦ unavailable
    | some server ↦ elim (whois_query (answer server)) [
      | none ↦ unavailable
      | some bytes ↦
          let date = p.creation_date (decode bytes) in
          success record {
            whois_server = server;
            creation_date = date;
            age_days = elim date [ none ↦ none | some d ↦ age_of p d ];
            raw = take 2000 (decode bytes);
          }
    ]
  ]
]
