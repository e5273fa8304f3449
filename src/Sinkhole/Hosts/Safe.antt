-- ===== src/Sinkhole/Hosts/Safe.antt =====
-- What reaches openssl arguments, file names, docker and iptables is of the safe alphabets.
use whs_dynamic.Base.{
  ℕ, zero, suc, ◌≤◌, ◌≡◌, refl, [], ◌∷◌, Option, none, some, Bool, true, ◌&&◌, ◌||◌, Text, codes,
  map, take, length, filter_by, all, lower, lower_code, eqb, arith, Bool-cases, inl, inr,
  if◌then◌else◌, leb, length-take,
}
use whs_dynamic.Sinkhole.Hosts.{
  is_alnum, is_host_code, safe_filename, invalid_sni, safe_host, network_suffix, upper_code,
}

abbrev pub IsHost : Text → Type 0
IsHost name = (all is_host_code name ≡ true) × (1 ≤ length name) × (length name ≤ 253)

invalid_sni-IsHost : IsHost invalid_sni
unfolding is_host_code is_alnum
invalid_sni-IsHost = (refl, omega arith, omega arith)

abbrev host_test : Text → Bool
host_test h = leb 1 (length h) && leb (length h) 253 && all is_host_code h

-- Every SNI, also an absent or malicious one, becomes a name of 1 to 253 letters, digits, dots and
-- dashes.
pub safe_host-IsHost : (hostname : Option Text) → IsHost (safe_host hostname)
unfolding safe_host
safe_host-IsHost none = invalid_sni-IsHost
safe_host-IsHost (some h) = elim (Bool-cases (host_test h)) [
  | inl good ↦ rw good (ground arith, ground arith, ground arith)
  | inr bad ↦ rw bad invalid_sni-IsHost
]

-- A name of that form is kept as it is, and the placeholder stands for every other.
pub safe_host_cases :
    (h : Text)
    → (IsHost h → safe_host (some h) ≡ h) × (¬ IsHost h → safe_host (some h) ≡ invalid_sni)
unfolding safe_host
safe_host_cases h = elim (Bool-cases (host_test h)) [
  | inl good ↦ (λ v. rw good, λ n. absurd (n (ground arith, ground arith, ground arith)))
  | inr bad ↦ (λ v. ground arith, λ n. rw bad)
]

all-take : (p : ℕ → Bool) (n : ℕ) (s : Text) → all p s ≡ true → all p (take n s) ≡ true
all-take p zero s h = refl
all-take p (suc n) [] h = refl
all-take p (suc n) (c ∷ s) h = ground (arith, all-take p n s)

all-map_total :
    (p : ℕ → Bool) (f : ℕ → ℕ) (s : Text) → ((c : ℕ) → p (f c) ≡ true) → all p (map f s) ≡ true
all-map_total p f [] h = refl
all-map_total p f (c ∷ s) h = ground (arith, h c, all-map_total p f s h)

-- The alphabet of leaf file names.
abbrev pub is_file_code : ℕ → Bool
is_file_code c = is_host_code c || eqb c b'_'

replaced_file_code : (c : ℕ) → is_file_code (if is_host_code c then c else b'_') ≡ true
replaced_file_code c = ground arith

-- A leaf file name has at most 100 characters, none of them a path separator or other than letters,
-- digits, dots, dashes and underscores, whatever the text was.
pub safe_filename_safe :
    (name : Text)
    → (all is_file_code (safe_filename name) ≡ true) × (length (safe_filename name) ≤ 100)
unfolding safe_filename
safe_filename_safe name = (
  all-take is_file_code 100 (map (λ c. if is_host_code c then c else b'_') name) (
      all-map_total is_file_code (λ c. if is_host_code c then c else b'_') name replaced_file_code),
  omega (arith, length-take {0} 100 (map (λ c. if is_host_code c then c else b'_') name)),
)

all-filter_by : (p : ℕ → Bool) (s : Text) → all p (filter_by p s) ≡ true
all-filter_by p [] = refl
all-filter_by p (c ∷ s) = ground (arith, all-filter_by p s)

all-map :
    (p : ℕ → Bool) (f : ℕ → ℕ) (s : Text)
    → ((c : ℕ) → p c ≡ true → p (f c) ≡ true)
    → all p s ≡ true
    → all p (map f s) ≡ true
all-map p f [] keep h = refl
all-map p f (c ∷ s) keep h = ground (arith, keep c, all-map p f s keep)

is_alnum-lower_code : (c : ℕ) → is_alnum c ≡ true → is_alnum (lower_code c) ≡ true
unfolding is_alnum lower_code
is_alnum-lower_code c h = ground arith

is_alnum-upper_code : (c : ℕ) → is_alnum c ≡ true → is_alnum (upper_code c) ≡ true
unfolding is_alnum upper_code
is_alnum-upper_code c h = ground arith

length-map-take : (f : ℕ → ℕ) (n : ℕ) (s : Text) → length (map f (take n s)) ≤ n
length-map-take f zero s = omega arith
length-map-take f (suc n) [] = omega arith
length-map-take f (suc n) (c ∷ s) = omega (arith, length-map-take f n s)

or_default :
    (s : Text)
    → all is_alnum s ≡ true
    → length s ≤ 8
    → let r : Text = elim s [ [] ↦ codes "default" | c ∷ t ↦ c ∷ t ] in
      (all is_alnum r ≡ true) × (1 ≤ length r) × (length r ≤ 8)
unfolding is_alnum
or_default [] h n = (refl, omega arith, omega arith)
or_default (c ∷ s) h n = (h, omega arith, n)

-- The part of an analysis id that names its network and its NAT chain has 1 to 8 characters, all
-- letters and digits, for every id.
pub network_suffix_safe :
    (analysis_id : Text)
    → (all is_alnum (network_suffix analysis_id) ≡ true)
      × (1 ≤ length (network_suffix analysis_id))
      × (length (network_suffix analysis_id) ≤ 8)
unfolding network_suffix
network_suffix_safe analysis_id =
    or_default (lower (take 8 (filter_by is_alnum analysis_id)))
      (all-map is_alnum lower_code (take 8 (filter_by is_alnum analysis_id)) is_alnum-lower_code
        (all-take is_alnum 8 (filter_by is_alnum analysis_id) (all-filter_by is_alnum analysis_id)))
      (length-map-take lower_code 8 (filter_by is_alnum analysis_id))
