-- ===== src/Miner/Randomness/Laws.antt =====
-- miner/util.go, `DrawRandomness`: different requests do not hash the same bytes.
use sophon_miner.Miner.Randomness.{Blake2b, hash_input}
use sophon_miner.Miner.Winner.{Domain}
use sophon_miner.Prelude.{List, [], ap, arith, length, refl, sym, ◌++◌, ◌∙◌, ◌∷◌, ◌≡◌}
use sophon_miner.Prelude.Int.{FitsInt64, ℤ}
use sophon_miner.Recorder.Encoding.{from_bytes, from_bytes-into_bytes, into_bytes}
use sophon_miner.Types.{Bytes, ChainEpoch}

cut_at :
    {A : Type 0} (xs ys us vs : List A)
    → length xs ≡ length ys
    → xs ++ us ≡ ys ++ vs
    → (xs ≡ ys) × (us ≡ vs)
cut_at [] [] us vs same h = (refl, h)
cut_at [] (y ∷ ys) us vs same h = absurd (omega arith)
cut_at (x ∷ xs) [] us vs same h = absurd (omega arith)
cut_at (x ∷ xs) (y ∷ ys) us vs same h =
    let head : x ≡ y = cc in
    let tail : xs ++ us ≡ ys ++ vs = cc in
    let (first, rest) = cut_at xs ys us vs (omega arith) tail in (cc, rest)

length-into_bytes : (z : ℤ) → length (into_bytes z) ≡ 8
unfolding into_bytes
length-into_bytes z = refl

into_bytes-injective : (a b : ℤ) → FitsInt64 a → FitsInt64 b → into_bytes a ≡ into_bytes b → a ≡ b
into_bytes-injective a b fa fb h =
    sym (from_bytes-into_bytes a fa) ∙ ap from_bytes h ∙ from_bytes-into_bytes b fb

-- What is hashed for one request is hashed for no other: equal bytes have the same domain, the same
-- round, the same entropy and a base of the same hash. So a request of one domain, or of one round,
-- shares its randomness with another only where blake2b collides.
pub hash_input-injective :
    (h : Blake2b) (rbase rbase' : Bytes) (pers pers' : Domain) (round round' : ChainEpoch)
    (entropy entropy' : Bytes)
    → FitsInt64 round
    → FitsInt64 round'
    → hash_input h rbase pers round entropy ≡ hash_input h rbase' pers' round' entropy'
    → (pers ≡ pers') × (h.sum256 rbase ≡ h.sum256 rbase') × (round ≡ round') × (entropy ≡ entropy')
unfolding hash_input
hash_input-injective h rbase rbase' pers pers' round round' entropy entropy' f f' same =
    let (tags, rest) =
      cut_at (into_bytes (h.tag pers)) (into_bytes (h.tag pers')) _ _
        (length-into_bytes (h.tag pers) ∙ sym (length-into_bytes (h.tag pers'))) same in
    let (bases, rest2) =
      cut_at (h.sum256 rbase) (h.sum256 rbase') _ _
        (h.length-sum256 rbase ∙ sym (h.length-sum256 rbase')) rest in
    let (rounds, entropies) =
      cut_at (into_bytes round) (into_bytes round') entropy entropy'
        (length-into_bytes round ∙ sym (length-into_bytes round')) rest2 in
    (
      h.tag-injective pers pers' (
          into_bytes-injective (h.tag pers) (h.tag pers') (h.tag-Fits pers) (h.tag-Fits pers')
            tags),
      bases,
      into_bytes-injective round round' f f' rounds,
      entropies,
    )
