-- ===== src/Sinkhole/Leaves/Issued.antt =====
-- For which hosts certificates are issued, and how often.
use whs_dynamic.Base.{
  List, [], ◌∷◌, ◌++◌, Option, none, some, Bool, ◌≡◌, ◌∙◌, sym, ap, ◌⊎◌, inl, inr, refl, Text, All,
  All-append, Bool-cases, Option-cases, find, find-put, nat_eq, list_eq,
}
use whs_dynamic.Sinkhole.Hosts.{safe_host}
use whs_dynamic.Sinkhole.Hosts.Safe.{IsHost, safe_host-IsHost}
use whs_dynamic.Sinkhole.Leaves.{
  LeafCall, Leaves, extension_call, request_call, sign_call, load_call, leaf_calls, run_calls,
  leaf_context, sni_callback, handshakes,
}

-- One of the calls for a leaf of a name of 1 to 253 letters, digits, dots and dashes.
abbrev pub IsIssued : Text → LeafCall → Type 0
IsIssued workspace c =
    (h : Text) × IsHost h
    × ((c ≡ extension_call workspace h)
        ⊎ ((c ≡ request_call workspace h)
            ⊎ ((c ≡ sign_call workspace h) ⊎ (c ≡ load_call workspace h))))

leaf_calls-IsIssued :
    (workspace h : Text) → IsHost h → All (IsIssued workspace) (leaf_calls workspace h)
unfolding leaf_calls
leaf_calls-IsIssued workspace h host = (
  (h, host, inl refl),
  (
    (h, host, inr (inl refl)),
    ((h, host, inr (inr (inl refl))), ((h, host, inr (inr (inr refl))), tt)),
  ),
)

module _ {Context : Type 0} (workspace : Text) (returns : List LeafCall → Bool)
    (context_of : List LeafCall → Context) where
  run_calls-IsIssued :
      (cs done : List LeafCall)
      → All (IsIssued workspace) cs
      → All (IsIssued workspace) done
      → All (IsIssued workspace) (run_calls workspace returns context_of cs done).1
  unfolding run_calls
  run_calls-IsIssued [] done hs h = h
  run_calls-IsIssued (c ∷ cs) done (hc, hs) h =
      let more = All-append (IsIssued workspace) done (c ∷ []) h (hc, tt) in
      elim (Bool-cases (returns (done ++ c ∷ []))) [
        | inl q ↦ rw q (run_calls-IsIssued cs (done ++ c ∷ []) hs more)
        | inr q ↦ rw q more
      ]

  abbrev ran : Text → Leaves Context → Bool × List LeafCall
  ran host s = run_calls workspace returns context_of (leaf_calls workspace host) s.calls

  -- The outcomes: a cached context is given again and nothing is called; a new one is cached under the host
  -- name; an exception leaves the cache.
  leaf_context_lem :
      (host : Text) (s : Leaves Context)
      → let r = leaf_context workspace returns context_of host s in
        ((r.0 ≡ find host s.leaf_cache) × (r.1 ≡ s))
        ⊎ (((r.0 ≡ find host r.1.leaf_cache) × (r.1.calls ≡ (ran host s).1))
            ⊎ ((r.0 ≡ none) × (r.1.leaf_cache ≡ s.leaf_cache) × (r.1.calls ≡ (ran host s).1)))
  unfolding leaf_context
  leaf_context_lem host s = elim (Option-cases (find host s.leaf_cache)) [
    | inr (ctx, q) ↦ inl (rw (leaf_context, q) refl, rw (leaf_context, q) refl)
    | inl q ↦ elim (Bool-cases (ran host s).0) [
      | inl p ↦ inr (
          inl (
            rw (leaf_context, q, p, find-put host (context_of (ran host s).1) s.leaf_cache) refl,
            rw (leaf_context, q, p) refl,
          ))
      | inr p ↦ inr (
          inr (
            rw (leaf_context, q, p) refl,
            rw (leaf_context, q, p) refl,
            rw (leaf_context, q, p) refl,
          ))
    ]
  ]

  leaf_context-IsIssued :
      (host : Text) (s : Leaves Context)
      → IsHost host
      → All (IsIssued workspace) s.calls
      → All (IsIssued workspace) (leaf_context workspace returns context_of host s).1.calls
  leaf_context-IsIssued host s valid h =
      let more =
        run_calls-IsIssued (leaf_calls workspace host) s.calls
          (leaf_calls-IsIssued workspace host valid) h in
      elim (leaf_context_lem host s) [
        | inl (e, same) ↦ rw same h
        | inr (inl (e, called)) ↦ rw called more
        | inr (inr (e, kept, called)) ↦ rw called more
      ]

  -- Whatever names the connections of an analysis ask for, each file that is written, each openssl command
  -- and each certificate that is loaded is that of a host name of 1 to 253 letters, digits, dots and dashes.
  pub handshakes-IsIssued :
      (names : List (Option Text)) (s : Leaves Context)
      → All (IsIssued workspace) s.calls
      → All (IsIssued workspace) (handshakes workspace returns context_of names s).calls
  unfolding handshakes sni_callback
  handshakes-IsIssued [] s h = h
  handshakes-IsIssued (name ∷ names) s h =
      handshakes-IsIssued names (sni_callback workspace returns context_of name s).1
        (leaf_context-IsIssued (safe_host name) s (safe_host-IsHost name) h)

  leaf_context_cached :
      (host : Text) (ctx : Context) (s : Leaves Context)
      → find host s.leaf_cache ≡ some ctx
      → leaf_context workspace returns context_of host s ≡ (some ctx, s)
  unfolding leaf_context
  leaf_context_cached host ctx s q = rw (leaf_context, q) refl

  leaf_context_found :
      (host : Text) (ctx : Context) (s : Leaves Context)
      → let r = leaf_context workspace returns context_of host s in
        r.0 ≡ some ctx → find host r.1.leaf_cache ≡ some ctx
  leaf_context_found host ctx s q = elim (leaf_context_lem host s) [
    | inl (e, same) ↦ ap (λ t. find host t.leaf_cache) same ∙ (sym e ∙ q)
    | inr (inl (e, called)) ↦ sym e ∙ q
    | inr (inr (e, kept, called)) ↦ cc (e, q)
  ]

  leaf_context_again :
      (host : Text) (s : Leaves Context)
      → let r = leaf_context workspace returns context_of host s in
        (r.0 ≡ none) ⊎ (leaf_context workspace returns context_of host r.1 ≡ r)
  leaf_context_again host s =
      let r = leaf_context workspace returns context_of host s in
      elim (Option-cases r.0) [
        | inl q ↦ inl q
        | inr (ctx, q) ↦ inr (
            leaf_context_cached host ctx r.1 (leaf_context_found host ctx s q)
            ∙ ap (λ o. (o, r.1)) (sym q))
      ]

  -- Where a connection gets a certificate, the next one for the same name gets the same one and nothing is
  -- called or written for it.
  pub sni_callback_again :
      (name : Option Text) (s : Leaves Context)
      → let r = sni_callback workspace returns context_of name s in
        (r.0.context ≡ none) ⊎ (sni_callback workspace returns context_of name r.1 ≡ r)
  unfolding sni_callback
  sni_callback_again name s = elim (leaf_context_again (safe_host name) s) [
    | inl e ↦ inl e
    | inr e ↦ inr (rw e refl)
  ]
