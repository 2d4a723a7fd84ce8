-- ===== src/Cmd/Addresses.antt =====
-- cmd/address.go: the miners that a command names, and the commands that start and stop them.
pub mod Laws
use sophon_miner.Api.{MiningApi, start, states_for_mining, stop}
use sophon_miner.Prelude.{List, Result, String, [], err, ok, suc, wrap_err, ℕ, ◌>>=◌, ◌>>◌, ◌∷◌}
use sophon_miner.Types.{Address, MinerState}

pub data AddressError (E : Type 0) : Type 0 where
  -- The position and the parser's error.
  parsing_failed : ℕ → ℕ → AddressError E
  call_failed : E → AddressError E

-- The loop over the arguments, from a position on.
unfoldable pub parse_from :
    {E : Type 0}
    → (String → Result ℕ Address)
    → ℕ
    → List String
    → Result (AddressError E) (List Address)
parse_from new_from_string i [] = ok []
parse_from new_from_string i (s ∷ rest) = do
  a ← wrap_err (parsing_failed i) (new_from_string s)
  later ← parse_from new_from_string (suc i) rest
  ok (a ∷ later)

unfoldable pub parse_addrs :
    {E : Type 0}
    → (String → Result ℕ Address)
    → List String
    → Result (AddressError E) (List Address)
parse_addrs new_from_string args = parse_from new_from_string 0 args

module _ {M E : Type 0} (api : MiningApi M E) (check_permission : Address → Result ℕ (Unit {0}))
    (new_from_string : String → Result ℕ Address) where
  unfoldable pub when_parsed :
      (List Address → M → Result E (Unit {0}) × M)
      → Result (AddressError E) (List Address)
      → M
      → Result (AddressError E) (Unit {0}) × M
  when_parsed call (err e) m = (err e, m)
  when_parsed call (ok addrs) m = let (r, m') = call addrs m in (wrap_err call_failed r, m')

  unfoldable pub start_mining_cmd : List String → M → Result (AddressError E) (Unit {0}) × M
  start_mining_cmd args m =
      when_parsed (λ addrs s. start api check_permission s addrs) (parse_addrs new_from_string args)
        m

  unfoldable pub stop_mining_cmd : List String → M → Result (AddressError E) (Unit {0}) × M
  stop_mining_cmd args m =
      when_parsed (λ addrs s. stop api check_permission s addrs) (parse_addrs new_from_string args)
        m

  pub state_cmd : List String → M → Result (AddressError E) (List MinerState)
  state_cmd args m = do
    addrs ← parse_addrs new_from_string args
    wrap_err call_failed (states_for_mining api check_permission m addrs)
