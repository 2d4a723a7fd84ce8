-- ===== src/Config/Laws.antt =====
-- node/config/def.go, `Check`: which configurations pass.
use sophon_miner.Config.{
  ApiInfo, ConfigError, GatewayNode, MinerConfig, SlashFilterConfig, check, check_auth,
  check_full_node, check_gateway, check_listen, check_slash_filter, no_address,
}
use sophon_miner.Prelude.{
  Bool, Bool-cases, Option, Result, String, arith, err, false, inl, inr, none, not, ok, refl, some,
  string_eq, true, ◌&&◌, ◌==◌, ◌>>◌, ◌||◌, ◌↔◌, ◌≡◌,
}

abbrev pub is_from : {A : Type 0} → (A → Bool) → Option A → Bool
is_from p none = false
is_from p (some a) = p a

-- What a configuration that can be run has.
abbrev pub is_runnable : (String → Bool) → MinerConfig → Bool
is_runnable parses cfg =
    not (cfg.api_listen_address == "")
    && (is_from (λ full. not (full.addr == "") && not (full.token == "")) cfg.full_node
        && (is_from (λ auth. parses auth.addr) cfg.auth
            && (is_from (λ gateway. not (no_address gateway.listen_api)) cfg.gateway
                && is_from
                    (λ sf. sf.kind == "local" || (sf.kind == "mysql" && not (sf.my_sql.conn == "")))
                    cfg.slash_filter)))

listen_iff : (addr : String) → (check_listen addr ≡ ok tt) ↔ (not (addr == "") ≡ true)
unfolding check_listen
listen_iff addr = ground arith

full_node_iff :
    (full : Option ApiInfo)
    → (check_full_node full ≡ ok tt)
      ↔ (is_from (λ x. not (x.addr == "") && not (x.token == "")) full ≡ true)
unfolding check_full_node
full_node_iff none = ground arith
full_node_iff (some full) = ground arith

auth_iff :
    (parses : String → Bool) (auth : Option ApiInfo)
    → (check_auth parses auth ≡ ok tt) ↔ (is_from (λ x. parses x.addr) auth ≡ true)
unfolding check_auth
auth_iff parses none = ground arith
auth_iff parses (some auth) = ground arith

gateway_iff :
    (gateway : Option GatewayNode)
    → (check_gateway gateway ≡ ok tt)
      ↔ (is_from (λ x. not (no_address x.listen_api)) gateway ≡ true)
unfolding check_gateway
gateway_iff none = ground arith
gateway_iff (some gateway) = ground arith

slash_filter_iff :
    (sf : Option SlashFilterConfig)
    → (check_slash_filter sf ≡ ok tt) ↔ (
        is_from (λ x. x.kind == "local" || (x.kind == "mysql" && not (x.my_sql.conn == ""))) sf
        ≡ true)
unfolding check_slash_filter
slash_filter_iff none = ground arith
slash_filter_iff (some sf) = elim (Bool-cases (sf.kind == "mysql")) [
  | inl e ↦
      let kind : sf.kind ≡ "mysql" = (string_eq.beq_iff sf.kind "mysql").0 e in
      let other : (sf.kind == "local") ≡ false = rw kind refl in ground arith
  | inr e ↦ ground arith
]

then_iff :
    (r s : Result ConfigError (Unit {0})) (p q : Bool)
    → (r ≡ ok tt) ↔ (p ≡ true)
    → (s ≡ ok tt) ↔ (q ≡ true)
    → ((r >> s) ≡ ok tt) ↔ (p && q ≡ true)
then_iff (ok u) s p q a b = ground arith
then_iff (err e) s p q a b = ground arith

-- `Check` passes exactly the configurations with a listen address, a full node with its address and
-- token, an auth address that is a URL, a gateway with an address, and a slash filter that is local
-- or is MySQL with a data source.
pub check_iff :
    (parses : String → Bool) (cfg : MinerConfig)
    → (check parses cfg ≡ ok tt) ↔ (is_runnable parses cfg ≡ true)
unfolding check
check_iff parses cfg = then_iff _ _ _ _ (listen_iff cfg.api_listen_address) (
    then_iff _ _ _ _ (full_node_iff cfg.full_node) (
      then_iff _ _ _ _ (auth_iff parses cfg.auth)
        (then_iff _ _ _ _ (gateway_iff cfg.gateway) (slash_filter_iff cfg.slash_filter))))
