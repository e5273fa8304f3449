-- ===== src/Collectors/Tcpdump.antt =====
-- `PcapCollector` of backend/app/collectors.py. The patterns of a flow and of a query are arguments, and
-- so are the answers of the subprocesses.
pub mod Flows
use whs_dynamic.Base.{
  ℕ, ◌+◌, List, [], ◌∷◌, ◌++◌, Option, none, some, Bool, true, false, not, ◌&&◌, ◌||◌, ◌≡◌, ◌↔◌,
  refl, Text, codes, take, lower, has_text, length, map, reverse, leb, eqb, Eq, ◌==◌, nat_eq,
  list_eq, arith, eqb_iff, list_beq_iff, tally, distinct, sort_by, if◌then◌else◌,
}

-- A flow's source, destination and destination port.
abbrev pub FlowKey : Type 0
FlowKey = Text × Text × ℕ

abbrev same_flow : FlowKey → FlowKey → Bool
same_flow (a, b, n) (c, d, m) = a == c && (b == d && eqb n m)

pub same_flow_iff : (x y : FlowKey) → (same_flow x y ≡ true) ↔ (x ≡ y)
same_flow_iff (a, b, n) (c, d, m) = ground (arith, list_beq_iff a c, list_beq_iff b d, eqb_iff n m)

instance abbrev pub flow_eq : Eq FlowKey
flow_eq = record { equal = same_flow; equal_iff = same_flow_iff }

pub data Status : Type 0 where
  disabled not_started not_installed failed_to_start capturing : Status
  permission_denied : Status
  success : ℕ → ℕ → Status

pub record Capturer : Type 0 where
  pub network : Text
  pub running : Bool
  pub flows : List (FlowKey × ℕ)
  pub dns_names : List Text
  pub status : Status

-- `network in ("disabled", "restricted")`
unfoldable pub is_offline : Text → Bool
is_offline network = network == codes "disabled" || network == codes "restricted"

-- `__init__`
unfoldable pub new_capturer : Text → Capturer
unfolding is_offline
new_capturer network = record {
  network = network;
  running = false;
  flows = [];
  dns_names = [];
  status = if is_offline network then disabled else not_started;
}

-- `start`: whether tcpdump is found, and whether it could be run.
unfoldable pub start : Bool → Bool → Capturer → Capturer
unfolding is_offline
start found started c =
    if is_offline c.network
    then c
    else if not found
    then record c { status = not_installed }
    else if started
    then record c { running = true; status = capturing }
    else record c { status = failed_to_start }

-- `name.rstrip(".")`
unfoldable pub drop_dots : Text → Text
drop_dots [] = []
drop_dots (c ∷ s) = let rest = drop_dots s in if eqb c b'.' then rest else c ∷ s

unfoldable pub rstrip_dots : Text → Text
unfolding drop_dots
rstrip_dots name = reverse (drop_dots (reverse name))

unfoldable pub total_packets : List (FlowKey × ℕ) → ℕ
total_packets [] = 0
total_packets ((k, n) ∷ flows) = n + total_packets flows

-- What the capture that was stopped leaves: its errors, whether its file has anything in it, and the
-- lines that a second run prints of the file.
pub record Captured : Type 0 where
  pub err : Text
  pub nonempty : Bool
  pub lines : List Text

module _ (parse_line : Text → Option FlowKey) (parse_dns_name : Text → Option Text) where
  -- The flows of the lines.
  unfoldable pub parsed_flows : List Text → List FlowKey
  parsed_flows [] = []
  parsed_flows (line ∷ lines) =
      let rest = parsed_flows lines in elim (parse_line line) [ none ↦ rest | some k ↦ k ∷ rest ]

  -- The names of the queries; an empty name is none.
  unfoldable pub parsed_names : List Text → List Text
  unfolding rstrip_dots
  parsed_names [] = []
  parsed_names (line ∷ lines) =
      let rest = parsed_names lines in
      elim (parse_dns_name line) [
        | none ↦ rest
        | some name ↦ if name == [] then rest else rstrip_dots name ∷ rest
      ]

  -- `stop`
  unfoldable pub stop : Captured → Capturer → Capturer
  unfolding parsed_flows parsed_names total_packets
  stop e c =
      let flows = tally (parsed_flows e.lines) c.flows in
      if not c.running
      then c
      else if has_text (lower e.err) (codes "not permitted")
          || has_text (lower e.err) (codes "permission")
      then record c { status = permission_denied }
      else if not e.nonempty
      then record c { status = success 0 0 }
      else record c {
        flows = flows;
        dns_names = parsed_names e.lines ++ c.dns_names;
        status = success (total_packets flows) (length flows);
      }

-- `domains`: the names are a set.
unfoldable pub domains : Capturer → List Text
domains c = sort_by (λ d. d) (distinct c.dns_names)

-- A stable insertion by a falling count.
unfoldable pub rank : FlowKey × ℕ → List (FlowKey × ℕ) → List (FlowKey × ℕ)
rank f [] = f ∷ []
rank f (g ∷ gs) = let rest = rank f gs in if leb g.1 f.1 then f ∷ g ∷ gs else g ∷ rest

-- `sorted(self.flows.items(), key=lambda kv: -kv[1])`
unfoldable pub ranked : List (FlowKey × ℕ) → List (FlowKey × ℕ)
unfolding rank
ranked [] = []
ranked (f ∷ fs) = rank f (ranked fs)

-- `summary`
unfoldable pub summary : ℕ → Capturer → List (FlowKey × ℕ)
unfolding ranked
summary limit c = take limit (ranked c.flows)
