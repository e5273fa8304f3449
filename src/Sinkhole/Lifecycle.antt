-- ===== src/Sinkhole/Lifecycle.antt =====
-- The `Sinkhole` object of backend/app/sinkhole.py: `start`, `_cleanup_partial` and `stop`. The host
-- (openssl, docker, iptables, sockets) answers each call as the history of calls decides; that answer
-- is the parameter `host`. The history is kept newest first.
pub mod Pending
pub mod Phases
pub mod Nat
pub mod Closed
use whs_dynamic.Base.{
  ℕ, zero, suc, List, [], ◌∷◌, ◌++◌, Option, none, some, Bool, true, false, not, ◌&&◌, Text, codes,
  String, eqb, if◌then◌else◌,
}

-- The calls that leave the program.
pub data Call : Type 0 where
  which_openssl openssl_ca ca_exists : Call
  network_create network_rm network_inspect : Text → Call
  bind : (port : ℕ) → Call
  nat_new nat_return nat_dnat nat_flush nat_delete_chain : Text → Call
  nat_prerouting nat_delete_rule : (subnet chain : Text) → Call

-- A finished call has a return code and the words of its output. The others are exceptions.
pub data Reply : Type 0 where
  finished : (returncode : ℕ) (words : List Text) → Reply
  permission_error os_error timeout_expired : Reply

abbrev pub Log : Type 0
Log = List (Call × Reply)

pub data Status : Type 0 where
  not_started no_openssl no_ca no_network no_gateway bind_denied bind_failed nat_denied : Status
  capturing : (bind_ip network : Text) → Status
  success : (captures : ℕ) (bind_ip : Text) → Status

pub record Sinkhole : Type 0 where
  pub docker_network : Text
  pub nat_chain : Text
  pub nat_subnet : Option Text
  pub bind_ip : Text
  pub active : Bool
  pub status : Status
  pub network_created : Bool
  pub nat_installed : Bool
  pub sockets : List ℕ
  pub captures : ℕ
  pub log : Log

-- The constructor, given the two names (`docker_network_name` and `nat_chain_name` of `Hosts`).
abbrev pub new_sinkhole : (docker_network nat_chain : Text) → Sinkhole
new_sinkhole network chain = record {
  docker_network = network;
  nat_chain = chain;
  nat_subnet = none;
  bind_ip = codes "127.0.0.1";
  active = false;
  status = not_started;
  network_created = false;
  nat_installed = false;
  sockets = [];
  captures = 0;
  log = [];
}

pub data Result (A : Type 0) : Type 0 where
  returned : A → Result A
  raised : Reply → Result A

abbrev pub Action : Type 0 → Type 0
Action A = Sinkhole → Result A × Sinkhole

module _ {A B : Type 0} where
  abbrev pub after : Result A → (A → Action B) → Action B
  after (returned a) f s = f a s
  after (raised e) f s = (raised e, s)

  infixl 5 ◌>>=◌ ◌>>◌
  abbrev pub ◌>>=◌ : Action A → (A → Action B) → Action B
  ◌>>=◌ m f s = let (r, t) = m s in after r f t

  abbrev pub ◌>>◌ : Action A → Action B → Action B
  m >> k = m >>= λ _. k

abbrev pub pure : {A : Type 0} → A → Action A
pure a s = (returned a, s)

abbrev pub modify : (Sinkhole → Sinkhole) → Action (Unit {0})
modify f s = (returned tt, f s)

abbrev pub get : Action Sinkhole
get s = (returned s, s)

abbrev pub fail_with : Status → Action (Unit {0})
fail_with status = modify (λ s. record s { status = status })

module _ (host : Log → Call → Reply) where
  -- A call, whose exceptions pass on.
  unfoldable pub run : Call → Action (ℕ × List Text)
  run c s =
      let s' : Sinkhole = record s { log = (c, host s.log c) ∷ s.log } in
      elim (host s.log c) [
        | finished code words ↦ (returned (code, words), s')
        | permission_error ↦ (raised permission_error, s')
        | os_error ↦ (raised os_error, s')
        | timeout_expired ↦ (raised timeout_expired, s')
      ]

  abbrev pub succeeds : Call → Action Bool
  succeeds c = do (code, _) ← run c; pure (eqb code 0)

  -- `_generate_ca`: the file is looked for only behind a successful command.
  unfoldable pub generate_ca : Action Bool
  generate_ca = do made ← succeeds openssl_ca; if made then succeeds ca_exists else pure false

  -- `_create_docker_network`
  unfoldable pub create_docker_network : Action Bool
  create_docker_network = do
    s ← get
    created ← succeeds (network_create s.docker_network)
    modify (λ s. record s { network_created = created })
    pure created

  -- `_network_gateway_and_subnet`
  unfoldable pub gateway_and_subnet : Action (Option (Text × Text))
  gateway_and_subnet = do
    s ← get
    (code, words) ← run (network_inspect s.docker_network)
    pure (
        if eqb code 0
        then (elim words [
          | [] ↦ none
          | gateway ∷ rest ↦ elim rest [
            | [] ↦ none
            | subnet ∷ more ↦ elim more [ [] ↦ some (gateway, subnet) | _ ↦ none ]
          ]
        ])
        else none)

  -- The loop of `_setup_nat` over its four commands.
  unfoldable pub run_all : List Call → Action Bool
  run_all [] = pure true
  run_all (c ∷ cs) =
      let rest = run_all cs in do fine ← succeeds c; if fine then rest else pure false

  -- `_setup_nat`
  unfoldable pub setup_nat : Text → Action Bool
  setup_nat subnet = do
    s ← get
    fine ← run_all (
        nat_new s.nat_chain
        ∷ nat_return s.nat_chain
        ∷ nat_dnat s.nat_chain
        ∷ nat_prerouting subnet s.nat_chain
        ∷ [])
    if fine
        then modify (λ s. record s { nat_installed = true; nat_subnet = some subnet })
        else pure tt
    pure fine

  -- `_teardown_nat`
  unfoldable pub teardown_nat : Action (Unit {0})
  teardown_nat = do
    s ← get
    if s.nat_installed
        then (do
          _ ←
              run (
                nat_delete_rule (elim s.nat_subnet [ none ↦ codes "None" | some n ↦ n ])
                  s.nat_chain)
          _ ← run (nat_flush s.nat_chain)
          _ ← run (nat_delete_chain s.nat_chain)
          pure tt)
        else pure tt

  -- `_remove_docker_network`
  unfoldable pub remove_docker_network : Action (Unit {0})
  remove_docker_network = do
    s ← get
    if s.network_created then (do _ ← run (network_rm s.docker_network); pure tt) else pure tt

  -- `_cleanup_partial`. Closing a socket raises nothing that passes on.
  unfoldable pub cleanup_partial : Action (Unit {0})
  cleanup_partial = do teardown_nat; modify (λ s. record s { sockets = [] }); remove_docker_network

  -- The three sockets in turn: those that were opened, and the exception that ended the try block.
  unfoldable pub open_sockets : List ℕ → List ℕ → Action (List ℕ × Option Reply)
  open_sockets [] opened s = (returned (opened, none), s)
  open_sockets (port ∷ ports) opened s =
      let s' : Sinkhole = record s { log = (bind port, host s.log (bind port)) ∷ s.log } in
      elim (host s.log (bind port)) [
        | finished code words ↦ open_sockets ports (opened ++ port ∷ []) s'
        | permission_error ↦ (returned (opened, some permission_error), s')
        | os_error ↦ (returned (opened, some os_error), s')
        | timeout_expired ↦ (returned (opened, some timeout_expired), s')
      ]

  -- `start` from the bound sockets on.
  unfoldable pub finish_start : Text → Action (Unit {0})
  finish_start subnet = do
    ready ← setup_nat subnet
    if ready
        then modify (λ s. record s { active = true; status = capturing s.bind_ip s.docker_network })
        else (do cleanup_partial; fail_with nat_denied)

  -- `start` from the docker network on.
  unfoldable pub start_listeners : Text × Text → Action (Unit {0})
  start_listeners (gateway, subnet) = do
    modify (λ s. record s { bind_ip = gateway })
    (opened, error) ← open_sockets (53 ∷ 80 ∷ 443 ∷ []) []
    modify (λ s. record s { sockets = opened })
    elim error [
      | none ↦ finish_start subnet
      | some e ↦ (do
        cleanup_partial
        fail_with (elim e [ permission_error ↦ bind_denied | _ ↦ bind_failed ]))
    ]

  unfoldable pub start_network : Action (Unit {0})
  start_network = do
    created ← create_docker_network
    if created
        then (do
          found ← gateway_and_subnet
          elim found [
            | none ↦ (do cleanup_partial; fail_with no_gateway)
            | some pair ↦ start_listeners pair
          ])
        else fail_with no_network

  -- `start`
  unfoldable pub start : Action (Unit {0})
  start = do
    found ← succeeds which_openssl
    if found
        then (do made ← generate_ca; if made then start_network else fail_with no_ca)
        else fail_with no_openssl

  -- `stop`. The threads are joined and the sockets closed without an exception that passes on.
  unfoldable pub stop : Action (Unit {0})
  stop = do
    s ← get
    if s.active
        then (do
          teardown_nat
          remove_docker_network
          modify (λ s. record s { status = success s.captures s.bind_ip }))
        else pure tt

-- `to_netsim_json`: the captures, or the reason why there are none.
pub data Netsim : Type 0 where
  unavailable : Status → Netsim
  recorded : (bind_ip docker_network : Text) (capture_count : ℕ) → Netsim

unfoldable pub to_netsim_json : Sinkhole → Netsim
to_netsim_json s =
    if s.active then recorded s.bind_ip s.docker_network s.captures else unavailable s.status
