-- ===== src/Sinkhole/Dns/Fuel.antt =====
-- The name loop of `build_dns_a_response` ends within the length of the query.
use whs_dynamic.Base.{
  ℕ, zero, suc, ◌+◌, ◌≤◌, ◌<◌, ◌≡◌, refl, none, Bytes, length, get_elem?, [], ◌∷◌, arith,
  Option-cases, inl, inr,
}
use whs_dynamic.Sinkhole.Dns.{skip_name}

get_elem?_beyond : (b : Bytes) (i : ℕ) → length b ≤ i → get_elem? b i ≡ none
get_elem?_beyond [] i h = refl
get_elem?_beyond (x ∷ b) zero h = absurd (omega arith)
get_elem?_beyond (x ∷ b) (suc i) h = get_elem?_beyond b i (omega arith)

-- Any two amounts of fuel that exceed the bytes left give the same result: the loop has ended or left
-- the query by then.
pub skip_name_fuel :
    (fuel fuel' : ℕ) (query : Bytes) (pos : ℕ)
    → length query < fuel + pos
    → length query < fuel' + pos
    → skip_name fuel query pos ≡ skip_name fuel' query pos
unfolding skip_name
skip_name_fuel zero zero query pos h h' = refl
skip_name_fuel zero (suc m) query pos h h' = rw (get_elem?_beyond query pos (omega arith))
skip_name_fuel (suc n) zero query pos h h' = rw (get_elem?_beyond query pos (omega arith))
skip_name_fuel (suc n) (suc m) query pos h h' = elim (Option-cases (get_elem? query pos)) [
  | inl out ↦ rw out
  | inr (b, e) ↦
      let ih = skip_name_fuel n m query (pos + (1 + b)) (omega arith) (omega arith) in
      ground (arith, e, ih)
]
