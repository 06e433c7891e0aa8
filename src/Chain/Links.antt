-- ===== src/Chain/Links.antt =====
-- A chain as a predicate, and VerifyChain as its decision with the first broken link.
use rallish.Prelude.{
  ℕ, zero, suc, ◌+◌, ◌≡◌, refl, sym, ap, ◌∙◌, ◌↔◌, ◌⊎◌, inl, inr, List, [], ◌∷◌, Option, some, true,
  false, arith, Text, str_eq, str_eq→eq, str_eq_false→ne, Bool-cases, Option-cases, take, get_elem?,
}
use rallish.Prelude.Int.{pos}
use rallish.Digest.{Sha256}
use rallish.Contract.Ledger.{HarnessLedgerEntry}
use rallish.Chain.{ledger_genesis_hash, no_broken_link, chain_hash, verify_from, verify_chain}

-- The hash that the next entry must name.
abbrev pub tip : Text → List HarnessLedgerEntry → Text
tip prev [] = prev
tip prev (e ∷ es) = tip e.hash es

module _ (h : Sha256) (marshal : HarnessLedgerEntry → Option Text) where
  -- One link: the entry names its predecessor's hash, and holds the hash of its own content.
  abbrev pub IsLink : Text → HarnessLedgerEntry → Type 0
  IsLink prev e = (e.prev_hash ≡ prev) × (chain_hash h marshal e prev ≡ some e.hash)

  abbrev pub IsChain : Text → List HarnessLedgerEntry → Type 0
  IsChain prev [] = Unit {0}
  IsChain prev (e ∷ es) = IsLink prev e × IsChain e.hash es

  -- The verifier's choice at one entry.
  verify_from-IsLink :
      (prev : Text) (i : ℕ) (e : HarnessLedgerEntry) (es : List HarnessLedgerEntry)
      → (IsLink prev e
          × (verify_from h marshal prev i (e ∷ es) ≡ verify_from h marshal e.hash (i + 1) es))
        ⊎ ((¬ IsLink prev e) × (verify_from h marshal prev i (e ∷ es) ≡ (pos i, false)))
  unfolding verify_from
  verify_from-IsLink prev i e es = elim (Bool-cases (str_eq e.prev_hash prev)) [
    | inr other ↦ inr (λ l. str_eq_false→ne _ _ other l.0, rw other)
    | inl same ↦
        let linked : e.prev_hash ≡ prev = str_eq→eq _ _ same in
        elim (Option-cases (chain_hash h marshal e e.prev_hash)) [
          | inl failed ↦ inr (λ l. cc (ap (chain_hash h marshal e) linked), rw (same, failed))
          | inr (want, hashed) ↦ elim (Bool-cases (str_eq e.hash want)) [
            | inl right ↦ inl (
              (linked, rw (← linked) (hashed ∙ ap some (sym (str_eq→eq _ _ right)))),
              rw (same, hashed) (rw right),
            )
            | inr wrong ↦ inr (
              λ l. str_eq_false→ne _ _ wrong (cc (ap (chain_hash h marshal e) linked)),
              rw (same, hashed) (rw wrong),
            )
          ]
        ]
  ]

  -- The first entry at which a chain breaks.
  abbrev pub BreaksAt : Text → ℕ → List HarnessLedgerEntry → Type 0
  BreaksAt prev j es =
      IsChain prev (take j es)
      × ((e : HarnessLedgerEntry) × (get_elem? es j ≡ some e) × (¬ IsLink (tip prev (take j es)) e))

  IsChain-at :
      (prev : Text) (es : List HarnessLedgerEntry) (j : ℕ) (e : HarnessLedgerEntry)
      → IsChain prev es
      → get_elem? es j ≡ some e
      → IsLink (tip prev (take j es)) e
  IsChain-at prev [] j e c g = cc
  IsChain-at prev (x ∷ es) zero e c g = let same : x ≡ e = cc in rw (← same) c.0
  IsChain-at prev (x ∷ es) (suc j) e c g = IsChain-at x.hash es j e c.1 g

  verify_from_exact :
      (prev : Text) (i : ℕ) (es : List HarnessLedgerEntry)
      → (IsChain prev es × (verify_from h marshal prev i es ≡ (no_broken_link, true)))
        ⊎ ((j : ℕ) × BreaksAt prev j es × (verify_from h marshal prev i es ≡ (pos (i + j), false)))
  unfolding verify_from
  verify_from_exact prev i [] = inl (tt, refl)
  verify_from_exact prev i (e ∷ es) = elim (verify_from-IsLink prev i e es) [
    | inl (link, next) ↦ elim (verify_from_exact e.hash (i + 1) es) [
      | inl (chain, v) ↦ inl ((link, chain), next ∙ v)
      | inr (j, (chain, broken), v) ↦
          let at : (i + 1) + j ≡ i + suc j = omega arith in
          inr (suc j, ((link, chain), broken), next ∙ v ∙ ap (λ (x : ℕ). (pos x, false)) at)
    ]
    | inr (broken, stop) ↦
        let at : i ≡ i + 0 = omega arith in
        inr (0, (tt, (e, refl, broken)), stop ∙ ap (λ (x : ℕ). (pos x, false)) at)
  ]

  -- VerifyChain answers (-1, true) on a chain, and otherwise false with the index of the first entry
  -- that is not linked to the entries before it, which are a chain.
  pub verify_chain_exact :
      (es : List HarnessLedgerEntry)
      → (IsChain ledger_genesis_hash es × (verify_chain h marshal es ≡ (no_broken_link, true)))
        ⊎ ((j : ℕ) × BreaksAt ledger_genesis_hash j es
            × (verify_chain h marshal es ≡ (pos j, false)))
  unfolding verify_chain
  verify_chain_exact es = elim (verify_from_exact ledger_genesis_hash 0 es) [
    | inl good ↦ inl good
    | inr (j, broken, v) ↦
        let at : 0 + j ≡ j = omega arith in inr (j, broken, v ∙ ap (λ (x : ℕ). (pos x, false)) at)
  ]

  -- What VerifyChain accepts is a chain, and it accepts every chain.
  pub verify_chain-accepts :
      (es : List HarnessLedgerEntry)
      → (verify_chain h marshal es ≡ (no_broken_link, true)) ↔ IsChain ledger_genesis_hash es
  verify_chain-accepts es = elim (verify_chain_exact es) [
    | inl (chain, v) ↦ (λ _. chain, λ _. v)
    | inr (j, broken, v) ↦ (
      λ good. absurd (cc),
      λ chain.
          absurd (broken.1.2 (IsChain-at ledger_genesis_hash es j broken.1.0 chain broken.1.1)),
    )
  ]
