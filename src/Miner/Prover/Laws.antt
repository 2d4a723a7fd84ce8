-- ===== src/Miner/Prover/Laws.antt =====
-- miner/minerwpp.go: where the proof is asked of a client that is nil.
use sophon_miner.Miner.Prover.{
  GatewayClient, MiningWpp, asked_client, auth_header, compute_proof, connect_failed, connected,
  dial_args, new_gateway_rpc, nil_call, nil_client, try_addresses,
}
use sophon_miner.Prelude.{
  Bool, List, Option, Result, Result-cases, String, [], arith, false, inl, inr, refl, true, ℕ, ◌↔◌,
  ◌∷◌, ◌≡◌, ◌≢◌,
}
use sophon_miner.Types.{Address, Bytes, ChainEpoch}

module _ {G : Type 0} (resolve : String → Option String)
    (connect : String → Option String → Result ℕ G)
    (remote_proof : G → Address → Bytes → Bytes → ChainEpoch → ℕ → Result ℕ (List Bytes)) where
  try_addresses-not_nil :
      (header : Option String) (last : GatewayClient G) (addrs : List String)
      → last ≢ nil_client
      → try_addresses resolve connect header last addrs ≢ nil_client
  unfolding try_addresses
  try_addresses-not_nil header last [] ne = ne
  try_addresses-not_nil header last (a ∷ rest) ne = elim (Result-cases (connect a header)) [
    | inl (api, q) ↦ rw (try_addresses, q) (λ h. cc)
    | inr (e, q) ↦
        rw (try_addresses, q) (try_addresses-not_nil header (connect_failed e) rest (λ h. cc))
  ]

  tried_none :
      (header : Option String) (addrs : List String)
      → try_addresses resolve connect header nil_client addrs ≡ nil_client
      → addrs ≡ []
  unfolding try_addresses
  tried_none header [] h = refl
  tried_none header (a ∷ rest) h = elim (Result-cases (connect a header)) [
    | inl (api, q) ↦ let impossible = rw (try_addresses, q) at h in cc
    | inr (e, q) ↦ absurd (
        try_addresses-not_nil header (connect_failed e) rest (λ g. cc) (rw (try_addresses, q) at h))
  ]

  -- ComputeProof calls a nil client exactly where proofs are real and no address of the gateway is
  -- resolved: then NewGatewayRPC returns neither a client nor an error.
  pub compute_proof-nil_iff :
      (insecure : Bool) (wpp : MiningWpp) (ssi rand : Bytes) (epoch : ChainEpoch) (nv : ℕ)
      → (compute_proof resolve connect remote_proof insecure wpp ssi rand epoch nv ≡ nil_call)
        ↔ ((insecure ≡ false) × (dial_args resolve wpp.gateway_node.listen_api ≡ []))
  unfolding compute_proof new_gateway_rpc try_addresses asked_client
  compute_proof-nil_iff true wpp ssi rand epoch nv = ground arith
  compute_proof-nil_iff false wpp ssi rand epoch nv =
      let gw = wpp.gateway_node in
      (
        (λ h.
            (refl, tried_none (auth_header gw) (dial_args resolve gw.listen_api) (asked_nil _ h))),
        λ h. rw (new_gateway_rpc, h.1, try_addresses, asked_client) refl,
      )
    where
      asked_nil :
          (c : GatewayClient G)
          → asked_client resolve connect remote_proof c wpp ssi rand epoch nv ≡ nil_call
          → c ≡ nil_client
      asked_nil nil_client h = refl
      asked_nil (connected api) h = unfold asked_client in cc
      asked_nil (connect_failed e) h = unfold asked_client in cc
