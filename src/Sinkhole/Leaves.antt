-- ===== src/Sinkhole/Leaves.antt =====
-- `_leaf_context` and `_sni_callback` of backend/app/sinkhole.py. The openssl commands and the ssl module
-- are arguments: whether a call returns, and the context that the files then give, are functions of the
-- calls up to it.
pub mod Issued
use whs_dynamic.Base.{
  List, [], ◌∷◌, ◌++◌, Option, none, some, Bool, true, false, Text, codes, nat_eq, list_eq, find,
  put, if◌then◌else◌,
}
use whs_dynamic.Sinkhole.Hosts.{safe_filename, safe_host}

pub data LeafCall : Type 0 where
  write_extfile : (ext_file content : Text) → LeafCall
  request_leaf : (leaf_key leaf_csr subject : Text) → LeafCall
  sign_leaf : (leaf_csr leaf_pem ext_file : Text) → LeafCall
  load_cert_chain : (certfile keyfile : Text) → LeafCall

-- `self.workspace / f"_leaf-{safe}{suffix}"`
unfoldable pub leaf_file : Text → Text → Text → Text
leaf_file workspace safe_hostname suffix =
    workspace ++ (codes "/_leaf-" ++ (safe_filename safe_hostname ++ suffix))

unfoldable pub extension_call : Text → Text → LeafCall
unfolding leaf_file
extension_call workspace safe_hostname =
    write_extfile (leaf_file workspace safe_hostname (codes ".ext"))
      (codes "subjectAltName=DNS:" ++ (safe_hostname ++ codes "\n"))

unfoldable pub request_call : Text → Text → LeafCall
unfolding leaf_file
request_call workspace safe_hostname =
    request_leaf (leaf_file workspace safe_hostname (codes ".key"))
      (leaf_file workspace safe_hostname (codes ".csr")) (codes "/CN=" ++ safe_hostname)

unfoldable pub sign_call : Text → Text → LeafCall
unfolding leaf_file
sign_call workspace safe_hostname =
    sign_leaf (leaf_file workspace safe_hostname (codes ".csr"))
      (leaf_file workspace safe_hostname (codes ".pem"))
      (leaf_file workspace safe_hostname (codes ".ext"))

unfoldable pub load_call : Text → Text → LeafCall
unfolding leaf_file
load_call workspace safe_hostname =
    load_cert_chain (leaf_file workspace safe_hostname (codes ".pem"))
      (leaf_file workspace safe_hostname (codes ".key"))

-- The calls for a leaf, in their order.
unfoldable pub leaf_calls : Text → Text → List LeafCall
leaf_calls workspace safe_hostname =
    extension_call workspace safe_hostname
    ∷ request_call workspace safe_hostname
    ∷ sign_call workspace safe_hostname
    ∷ load_call workspace safe_hostname
    ∷ []

-- `_leaf_cache`, and the calls so far.
pub record Leaves (Context : Type 0) : Type 0 where
  pub leaf_cache : List (Text × Context)
  pub calls : List LeafCall

-- What the callback leaves on the connection: `none` is the context that it had.
pub record Handshake (Context : Type 0) : Type 0 where
  pub sinkhole_host : Text
  pub context : Option Context

-- `server_name or "unknown-no-sni"`
unfoldable pub raw_host : Option Text → Text
raw_host none = codes "unknown-no-sni"
raw_host (some []) = codes "unknown-no-sni"
raw_host (some (c ∷ s)) = c ∷ s

module _ {Context : Type 0} (workspace : Text) (returns : List LeafCall → Bool)
    (context_of : List LeafCall → Context) where
  -- The calls up to the first that raises, and whether all return.
  unfoldable pub run_calls : List LeafCall → List LeafCall → Bool × List LeafCall
  run_calls [] done = (true, done)
  run_calls (c ∷ cs) done =
      let rest = run_calls cs (done ++ c ∷ []) in
      if returns (done ++ c ∷ []) then rest else (false, done ++ c ∷ [])

  -- `_leaf_context`; `none` is an exception.
  unfoldable pub leaf_context : Text → Leaves Context → Option Context × Leaves Context
  unfolding run_calls leaf_calls
  leaf_context safe_hostname s = elim (find safe_hostname s.leaf_cache) [
    | some ctx ↦ (some ctx, s)
    | none ↦
        let r = run_calls (leaf_calls workspace safe_hostname) s.calls in
        if r.0
        then (
          some (context_of r.1),
          record { leaf_cache = put safe_hostname (context_of r.1) s.leaf_cache; calls = r.1 },
        )
        else (none, record { leaf_cache = s.leaf_cache; calls = r.1 })
  ]

  -- `_sni_callback`
  unfoldable pub sni_callback : Option Text → Leaves Context → Handshake Context × Leaves Context
  unfolding leaf_context raw_host
  sni_callback server_name s =
      let r = leaf_context (safe_host server_name) s in
      (record { sinkhole_host = raw_host server_name; context = r.0 }, r.1)

  -- The callbacks of a sequence of connections.
  unfoldable pub handshakes : List (Option Text) → Leaves Context → Leaves Context
  unfolding sni_callback
  handshakes [] s = s
  handshakes (name ∷ names) s = handshakes names (sni_callback name s).1
