-- ===== src/Chain/Tamper.antt =====
-- The content that a chain of pkg/contract/harness_ledger.go protects.
use rallish.Prelude.{
  ◌≡◌, refl, sym, ap, ap₂, ◌∙◌, ◌⊎◌, inl, inr, List, [], ◌∷◌, ◌++◌, map, Option, some, true, arith,
  Text, Option-cases, none≢some, some-injective, length, append-injective_right,
}
use rallish.Hex.{encode, encode-injective, length-encode}
use rallish.Digest.{Sha256, Collision, sum-injective, widen}
use rallish.Contract.Ledger.{HarnessLedgerEntry}
use rallish.Chain.{ledger_genesis_hash, no_broken_link, chain_hash, verify_chain}
use rallish.Chain.Links.{IsChain, tip, verify_chain-accepts}

module _ (h : Sha256) (marshal : HarnessLedgerEntry → Option Text) where
  -- The bytes that the chain protects: the entry without its own hash.
  abbrev pub content : HarnessLedgerEntry → Option Text
  content e = marshal (record e { hash = [] })

  -- The texts that ChainHash hashes for the entries behind a hash.
  abbrev pub IsHashed : Text → List HarnessLedgerEntry → Text → Type 0
  IsHashed prev [] t = ⊥
  IsHashed prev (e ∷ es) t =
      ((bytes : Text) × (content e ≡ some bytes) × (t ≡ bytes ++ prev)) ⊎ IsHashed e.hash es t

  chain_hash_lem :
      (e : HarnessLedgerEntry) (prev hash : Text)
      → chain_hash h marshal e prev ≡ some hash
      → (bytes : Text) × (content e ≡ some bytes) × (encode (h.sum (bytes ++ prev)) ≡ hash)
  unfolding chain_hash
  chain_hash_lem e prev hash p = elim (Option-cases (content e)) [
    | inl failed ↦ absurd (none≢some (rw (failed, chain_hash) at p))
    | inr (bytes, q) ↦ (bytes, q, some-injective (rw (q, chain_hash) at p))
  ]

  chain_hash-length :
      (e : HarnessLedgerEntry) (prev hash : Text)
      → chain_hash h marshal e prev ≡ some hash
      → length hash ≡ 64
  chain_hash-length e prev hash p =
      let (bytes, _, made) = chain_hash_lem e prev hash p in
      omega (
        arith,
        ap length made,
        length-encode (h.sum (bytes ++ prev)),
        (h.sum-IsDigest (bytes ++ prev)).0,
      )

  chain_hash-injective :
      (e e' : HarnessLedgerEntry) (es es' : List HarnessLedgerEntry) (prev prev' hash : Text)
      → length prev ≡ length prev'
      → chain_hash h marshal e prev ≡ some hash
      → chain_hash h marshal e' prev' ≡ some hash
      → ((content e ≡ content e') × (prev ≡ prev'))
        ⊎ Collision h (IsHashed prev (e ∷ es)) (IsHashed prev' (e' ∷ es'))
  chain_hash-injective e e' es es' prev prev' hash len p p' =
      let (bytes, q, made) = chain_hash_lem e prev hash p in
      let (bytes', q', made') = chain_hash_lem e' prev' hash p' in
      let d = h.sum-IsDigest (bytes ++ prev) in
      let d' = h.sum-IsDigest (bytes' ++ prev') in
      elim (sum-injective h (IsHashed prev (e ∷ es)) (IsHashed prev' (e' ∷ es')) _ _
        (inl (bytes, q, refl)) (inl (bytes', q', refl))
        (encode-injective _ _ d.1 d'.1 (made ∙ sym made'))) [
          | inl same ↦
              let (b, prevs) = append-injective_right bytes bytes' prev prev' len same in
              inl (q ∙ ap some b ∙ sym q', prevs)
          | inr c ↦ inr c
        ]

  chains_agree :
      (prev prev' : Text) (es es' : List HarnessLedgerEntry)
      → length prev ≡ length prev'
      → length es ≡ length es'
      → IsChain h marshal prev es
      → IsChain h marshal prev' es'
      → tip prev es ≡ tip prev' es'
      → ((map content es ≡ map content es') × (prev ≡ prev'))
        ⊎ Collision h (IsHashed prev es) (IsHashed prev' es')
  chains_agree prev prev' [] [] lp le c c' t = inl (refl, t)
  chains_agree prev prev' [] (e' ∷ es') lp le c c' t = absurd (omega arith)
  chains_agree prev prev' (e ∷ es) [] lp le c c' t = absurd (omega arith)
  chains_agree prev prev' (e ∷ es) (e' ∷ es') lp le (link, c) (link', c') t =
      let l = chain_hash-length e prev e.hash link.1 in
      let l' = chain_hash-length e' prev' e'.hash link'.1 in
      elim (chains_agree e.hash e'.hash es es' (l ∙ sym l') (omega arith) c c' t) [
        | inr collision ↦ inr (widen (λ t p. inr p) (λ t q. inr q) collision)
        | inl (rest, hashes) ↦
            elim (chain_hash-injective e e' es es' prev prev' e'.hash lp (link.1 ∙ ap some hashes)
              link'.1) [
                | inl (same, prevs) ↦ inl (ap₂ ◌∷◌ same rest, prevs)
                | inr collision ↦ inr collision
              ]
      ]

  -- Two ledgers of one length that VerifyChain accepts and that end in one hash hold the same content,
  -- entry by entry, or two texts collide that ChainHash hashes, one for each ledger.
  pub verify_chain_tamper_evident :
      (es es' : List HarnessLedgerEntry)
      → verify_chain h marshal es ≡ (no_broken_link, true)
      → verify_chain h marshal es' ≡ (no_broken_link, true)
      → length es ≡ length es'
      → tip ledger_genesis_hash es ≡ tip ledger_genesis_hash es'
      → (map content es ≡ map content es')
        ⊎ Collision h (IsHashed ledger_genesis_hash es) (IsHashed ledger_genesis_hash es')
  verify_chain_tamper_evident es es' v v' len t =
      elim (chains_agree ledger_genesis_hash ledger_genesis_hash es es' refl len
        ((verify_chain-accepts h marshal es).0 v) ((verify_chain-accepts h marshal es').0 v') t) [
          | inl same ↦ inl same.0
          | inr c ↦ inr c
        ]
