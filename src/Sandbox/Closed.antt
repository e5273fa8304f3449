-- ===== src/Sandbox/Closed.antt =====
-- A run whose sinkhole is not up has no network.
use whs_dynamic.Base.{
  List, [], ◌∷◌, Option, Bool, true, false, ◌≡◌, ◌≢◌, ◌⊎◌, inl, inr, Text, codes, take, nat_eq,
  list_eq, list_beq_iff, contains, arith, refl,
}
use whs_dynamic.Sandbox.{network_arg, docker_command, effective_network, if_sinkhole, stage_command}
use whs_dynamic.Jobs.Upload.{valid_networks}

abbrev pub command_head : Text → Text → List Text
command_head runtime network =
    codes "docker"
    ∷ codes "run"
    ∷ codes "--rm"
    ∷ codes "--runtime"
    ∷ runtime
    ∷ codes "--network"
    ∷ network
    ∷ []

network_cases :
    (network : Text)
    → contains valid_networks network ≡ true
    → (network ≡ codes "disabled")
      ⊎ (network ≡ codes "restricted")
      ⊎ (network ≡ codes "full")
      ⊎ (network ≡ codes "sinkhole")
network_cases network valid = ground (
  arith,
  list_beq_iff network (codes "disabled"),
  list_beq_iff network (codes "restricted"),
  list_beq_iff network (codes "full"),
  list_beq_iff network (codes "sinkhole"),
)

-- In each of the four network modes, the container of a stage gets the bridge only in the mode `full`, the
-- network of the sinkhole only in the mode `sinkhole` and only while the sinkhole is active, and no
-- network at all otherwise.
pub stage_command_closed :
    (user : Option Text) (workspace : Text) (command : List Text) (network runtime stage : Text)
    (active : Bool) (bind_ip docker_network python_image : Text)
    → contains valid_networks network ≡ true
    → docker_network ≢ []
    → let head = take 7 (
        stage_command user workspace command network runtime stage active bind_ip docker_network
          python_image) in
      ((network ≡ codes "full") × (head ≡ command_head runtime (codes "bridge")))
      ⊎ ((network ≡ codes "sinkhole")
          × (active ≡ true)
          × (head ≡ command_head runtime docker_network))
      ⊎ ((network ≢ codes "full") × (head ≡ command_head runtime (codes "none")))
unfolding stage_command docker_command network_arg effective_network if_sinkhole
stage_command_closed user workspace command network runtime stage active bind_ip [] python_image
      valid named =
    ground (arith, named refl)
stage_command_closed user workspace command network runtime stage true bind_ip (c ∷ name)
      python_image valid named =
    elim (network_cases network valid) [
      | inl e ↦ rw e (inr (inr (λ q. ground (arith, q), refl)))
      | inr (inl e) ↦ rw e (inr (inr (λ q. ground (arith, q), refl)))
      | inr (inr (inl e)) ↦ rw e (inl (refl, refl))
      | inr (inr (inr e)) ↦ rw e (inr (inl (refl, refl, refl)))
    ]
stage_command_closed user workspace command network runtime stage false bind_ip (c ∷ name)
      python_image valid named =
    elim (network_cases network valid) [
      | inl e ↦ rw e (inr (inr (λ q. ground (arith, q), refl)))
      | inr (inl e) ↦ rw e (inr (inr (λ q. ground (arith, q), refl)))
      | inr (inr (inl e)) ↦ rw e (inl (refl, refl))
      | inr (inr (inr e)) ↦ rw e (inr (inr (λ q. ground (arith, q), refl)))
    ]
