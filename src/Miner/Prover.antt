-- ===== src/Miner/Prover.antt =====
-- miner/minerwpp.go: the proof of a winning PoSt, which a gateway computes, with the connection of
-- api/client/gateway_client.go and the addresses of node/config/gatewaydef.go.
-- The libraries resolve an address, connect and compute; an address that is not resolved is logged.
pub mod Laws
use sophon_miner.Config.{GatewayNode}
use sophon_miner.Journal.Alerting.{resolve}
use sophon_miner.Prelude.{
  Bool, List, Option, Result, String, [], err, if◌then◌else◌, list_eq, nat_eq, none, ok, some,
  string_eq, ℕ, ◌==◌, ◌>>=◌, ◌>>◌, ◌∷◌,
}
use sophon_miner.Prelude.Int.{int_eq}
use sophon_miner.Types.{Address, Bytes, ChainEpoch, state_eq}

-- `DialArgs`
unfoldable pub dial_args : (String → Option String) → List String → List String
dial_args resolve [] = []
dial_args resolve (a ∷ rest) =
    let later = dial_args resolve rest in
    elim (resolve a) [ none ↦ later | some addr ↦ addr ∷ later ]

-- `AuthHeader`: the token that the header has after "Bearer", where there is one.
unfoldable pub auth_header : GatewayNode → Option String
auth_header gw = if gw.token == "" then none else some gw.token

-- What NewGatewayRPC returns: a client, an error, or neither of them.
pub data GatewayClient (G : Type 0) : Type 0 where
  connected : G → GatewayClient G
  connect_failed : ℕ → GatewayClient G
  nil_client : GatewayClient G

module _ {G : Type 0} (resolve : String → Option String)
    (connect : String → Option String → Result ℕ G) where
  unfoldable pub try_addresses : Option String → GatewayClient G → List String → GatewayClient G
  try_addresses header last [] = last
  try_addresses header last (addr ∷ rest) = elim (connect addr header) [
    | ok api ↦ connected api
    | err e ↦ try_addresses header (connect_failed e) rest
  ]

  unfoldable pub new_gateway_rpc : GatewayNode → GatewayClient G
  new_gateway_rpc gw = try_addresses (auth_header gw) nil_client (dial_args resolve gw.listen_api)

pub record MiningWpp : Type 0 where
  pub m_addr : Address
  pub gateway_node : GatewayNode
  pub winn_rpt : ℕ

-- `NewWinningPoStProver`, with the type of proof that the node gives.
pub new_winning_post_prover : (Address → Result ℕ ℕ) → GatewayNode → Address → Result ℕ MiningWpp
new_winning_post_prover window_proof_type gw addr = do
  rpt ← window_proof_type addr
  ok (record { m_addr = addr; gateway_node = gw; winn_rpt = rpt })

pub data Computed : Type 0 where
  computed : Result ℕ (List Bytes) → Computed
  -- A call on the client that is nil.
  nil_call : Computed

-- "valid proof"
abbrev valid_proof : Bytes
valid_proof = 118 ∷ 97 ∷ 108 ∷ 105 ∷ 100 ∷ 32 ∷ 112 ∷ 114 ∷ 111 ∷ 111 ∷ 102 ∷ []

module _ {G : Type 0} (resolve : String → Option String)
    (connect : String → Option String → Result ℕ G)
    (remote_proof : G → Address → Bytes → Bytes → ChainEpoch → ℕ → Result ℕ (List Bytes)) where
  unfoldable pub asked_client :
      GatewayClient G → MiningWpp → Bytes → Bytes → ChainEpoch → ℕ → Computed
  asked_client (connected api) wpp ssi rand epoch nv =
      computed (remote_proof api wpp.m_addr ssi rand epoch nv)
  asked_client (connect_failed e) wpp ssi rand epoch nv = computed (err e)
  asked_client nil_client wpp ssi rand epoch nv = nil_call

  unfoldable pub compute_proof : Bool → MiningWpp → Bytes → Bytes → ChainEpoch → ℕ → Computed
  compute_proof insecure wpp ssi rand epoch nv =
      if insecure
      then computed (ok (valid_proof ∷ []))
      else asked_client (new_gateway_rpc resolve connect wpp.gateway_node) wpp ssi rand epoch nv
