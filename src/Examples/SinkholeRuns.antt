-- ===== src/Examples/SinkholeRuns.antt =====
-- backend/app/sinkhole.py on concrete inputs.
use whs_dynamic.Base.{◌≢◌, [], ◌∷◌, some, true, false, ◌≡◌, refl, Bytes, codes, arith, dotted}
use whs_dynamic.Pcap.Answers.{answers_of_message, add_answer}
use whs_dynamic.Sinkhole.Dns.{build_dns_a_response}
use whs_dynamic.Sinkhole.Dns.Reply.{
  Query, IsQuery, write_query, expected_response, build_dns_a_response-write_query,
}
use whs_dynamic.Sinkhole.Dns.Observed.{observed_response}
use whs_dynamic.Sinkhole.Lifecycle.{
  Call, network_inspect, nat_dnat, Reply, finished, Log, Sinkhole, new_sinkhole, returned, run_all,
  run, start, setup_nat, finish_start,
}
use whs_dynamic.Sinkhole.Lifecycle.Pending.{network_pending, chain_pending, rule_pending, IsOpening}
use whs_dynamic.Sinkhole.Lifecycle.Closed.{finish_start_leaks}

abbrev query : Query
query = record {
  txid = 1 ∷ 2 ∷ [];
  flags = 1 ∷ 0 ∷ [];
  qdcount = 1;
  counts = 0 ∷ 0 ∷ 0 ∷ 0 ∷ 0 ∷ 0 ∷ [];
  labels = codes "pypi" ∷ codes "org" ∷ [];
  qtype = 1;
  qclass = 0 ∷ 1 ∷ [];
  rest = [];
}

query-IsQuery : IsQuery query
query-IsQuery = record {
  txid_size = refl;
  flags_size = refl;
  asks = omega arith;
  counts_size = refl;
  labels_fit = (ground arith, (ground arith, tt));
  qclass_size = refl;
}

abbrev gateway : Bytes
gateway = 172 ∷ 18 ∷ 0 ∷ 1 ∷ []

build_dns_a_response-write_query_example :
    build_dns_a_response (write_query query) gateway ≡ some (expected_response query gateway)
build_dns_a_response-write_query_example =
    build_dns_a_response-write_query query query-IsQuery gateway

observed_response_example :
    (response : Bytes) × (build_dns_a_response (write_query query) gateway ≡ some response)
    × (answers_of_message response [] ≡ add_answer [] (dotted gateway) [])
observed_response_example =
    observed_response query gateway [] query-IsQuery
      ((ground arith, ground arith, refl), ((ground arith, ground arith, refl), tt)) refl refl

-- A host where every call succeeds.
abbrev good_host : Log → Call → Reply
good_host log (network_inspect n) = finished 0 (codes "172.18.0.1" ∷ codes "172.18.0.0/16" ∷ [])
good_host log c = finished 0 []

-- A host where the command for the DNAT rule fails.
abbrev bad_host : Log → Call → Reply
bad_host log (network_inspect n) = finished 0 (codes "172.18.0.1" ∷ codes "172.18.0.0/16" ∷ [])
bad_host log (nat_dnat n) = finished 1 []
bad_host log c = finished 0 []

abbrev fresh : Sinkhole
fresh = new_sinkhole (codes "dast-sh-1") (codes "DAST_SH_1")

-- The sinkhole after a start on that host.
abbrev running : Sinkhole
running = (start good_host fresh).1

fresh-IsOpening : IsOpening fresh
unfolding network_pending rule_pending
fresh-IsOpening = record { idle = refl; no_nat = refl; network = refl; rule = refl }

setup_nat_run : (setup_nat bad_host (codes "172.18.0.0/16") fresh).0 ≡ returned false
unfolding setup_nat run_all run
setup_nat_run = refl

setup_nat_run_fails : (setup_nat bad_host (codes "172.18.0.0/16") fresh).0 ≢ returned true
setup_nat_run_fails e = ground (arith, e, setup_nat_run)

finish_start_leaks_example :
    chain_pending (finish_start bad_host (codes "172.18.0.0/16") fresh).1.log ≡ true
finish_start_leaks_example =
    finish_start_leaks bad_host (codes "172.18.0.0/16") fresh [] fresh-IsOpening refl
      setup_nat_run_fails
