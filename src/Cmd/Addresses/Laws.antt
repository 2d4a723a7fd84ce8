-- ===== src/Cmd/Addresses/Laws.antt =====
-- cmd/address.go: which arguments a command takes.
use sophon_miner.Cmd.Addresses.{parse_addrs, parse_from, parsing_failed}
use sophon_miner.Prelude.{
  All, List, Result, Result-cases, String, [], ap, arith, err, inl, inr, length, ok, refl, suc, ℕ,
  ◌++◌, ◌+◌, ◌∷◌, ◌≡◌,
}
use sophon_miner.Types.{Address}

module _ (new_from_string : String → Result ℕ Address) where
  -- The first argument that does not parse, at its position.
  pub record FirstBad (k : ℕ) (args : List String) (i e : ℕ) : Type 0 where
    pub before : List String
    pub bad : String
    pub after : List String
    pub split : args ≡ before ++ bad ∷ after
    pub position : i ≡ k + length before
    pub refused_there : new_from_string bad ≡ err e
    pub taken_before : All (λ s. (a : Address) × (new_from_string s ≡ ok a)) before

  parse_from-FirstBad :
      {E : Type 0} (k : ℕ) (args : List String) (i e : ℕ)
      → parse_from {E = E} new_from_string k args ≡ err (parsing_failed i e)
      → FirstBad k args i e
  unfolding parse_from
  parse_from-FirstBad k [] i e h = cc
  parse_from-FirstBad {E} k (s ∷ rest) i e h = elim (Result-cases (new_from_string s)) [
    | inr (e', q) ↦
        let same = rw q at h in
        record {
          before = [];
          bad = s;
          after = rest;
          split = refl;
          position = ground (arith, same);
          refused_there = ground (arith, same, q);
          taken_before = tt;
        }
    | inl (a, q) ↦ elim (Result-cases (parse_from {E = E} new_from_string (suc k) rest)) [
      | inl (later, q') ↦ let none_failed = rw (q, q') at h in cc
      | inr (reason, q') ↦
          let same : reason ≡ parsing_failed i e = ground (arith, rw (q, q') at h) in
          let first = parse_from-FirstBad (suc k) rest i e (rw same at q') in
          record {
            before = s ∷ first.before;
            bad = first.bad;
            after = first.after;
            split = ap (λ l. s ∷ l) first.split;
            position = ground (arith, first.position);
            refused_there = first.refused_there;
            taken_before = ((a, q), first.taken_before);
          }
    ]
  ]

  -- A command whose arguments do not all parse names the first that does not, and its position.
  pub parse_addrs-FirstBad :
      {E : Type 0} (args : List String) (i e : ℕ)
      → parse_addrs {E = E} new_from_string args ≡ err (parsing_failed i e)
      → FirstBad 0 args i e
  unfolding parse_addrs
  parse_addrs-FirstBad args i e h = parse_from-FirstBad 0 args i e h
