-- ===== src/Miner/Randomness.antt =====
-- miner/util.go, `DrawRandomness`: the hash of a domain, a base, a round and an entropy.
-- blake2b and the numbers of the domains are a record; a write to a hash does not fail.
pub mod Laws
use sophon_miner.Miner.Winner.{Domain, MineError}
use sophon_miner.Prelude.{Result, length, ok, ◌++◌, ◌≡◌}
use sophon_miner.Prelude.Int.{FitsInt64, ℤ}
use sophon_miner.Recorder.Encoding.{into_bytes}
use sophon_miner.Types.{Bytes, ChainEpoch}

pub record Blake2b : Type 0 where
  pub sum256 : Bytes → Bytes
  pub tag : Domain → ℤ
  pub length-sum256 : (b : Bytes) → length (sum256 b) ≡ 32
  pub tag-Fits : (d : Domain) → FitsInt64 (tag d)
  pub tag-injective : (d e : Domain) → tag d ≡ tag e → d ≡ e

-- What is written to the hash, in order.
unfoldable pub hash_input : Blake2b → Bytes → Domain → ChainEpoch → Bytes → Bytes
hash_input h rbase pers round entropy =
    into_bytes (h.tag pers) ++ (h.sum256 rbase ++ (into_bytes round ++ entropy))

unfoldable pub draw_randomness :
    Blake2b → Bytes → Domain → ChainEpoch → Bytes → Result MineError Bytes
unfolding hash_input
draw_randomness h rbase pers round entropy = ok (h.sum256 (hash_input h rbase pers round entropy))
