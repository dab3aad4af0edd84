-- ===== src/Discovery/Store/Growth.antt =====
-- native/iroh_discovery/src/lib.rs: `advance` over any lawful store. What a store holds for an
-- endpoint is never lowered.
use nerves_p2p.Prelude.{
  ℕ, ◌≤◌, ◌≡◌, sym, ap, ◌∙◌, subst, inl, inr, ok, err, arith, Result-cases, Bool-cases,
}
use nerves_p2p.Prelude.Bytes.{bytes_eq, bytes_eq_iff}
use nerves_p2p.Discovery.Types.{Error, EndpointId}
use nerves_p2p.Discovery.Store.{SequenceStore, StoreLaws}

module _ {S : Type 0} (ops : SequenceStore S) where
  -- No endpoint's stored sequence is smaller in the second store, or unreadable there.
  abbrev pub Grows : S → S → Type 0
  Grows s t =
      (i : EndpointId) (a : ℕ) → ops.load s i ≡ ok a → (b : ℕ) × (ops.load t i ≡ ok b) × (a ≤ b)

  pub Grows-same : (s t : S) → s ≡ t → Grows s t
  Grows-same s t e i a h = (a, subst (λ u. ops.load u i ≡ ok a) e h, omega arith)

  pub Grows-trans : (s t u : S) → Grows s t → Grows t u → Grows s u
  Grows-trans s t u f g i a h =
      let (b, hb, ab) = f i a h in let (c, hc, bc) = g i b hb in (c, hc, omega (arith, ab, bc))

  pub advance-Grows :
      StoreLaws ops → (s : S) (e : EndpointId) (n : ℕ) → Grows s (ops.advance s e n).1
  advance-Grows laws s e n i a h = elim (Bool-cases (bytes_eq e i)) [
    | inl equal ↦
        (let same : e ≡ i = (bytes_eq_iff e i).0 equal in
          elim (Result-cases (ops.advance s e n).0) [
            | inl (u, accepted) ↦ (
              n,
              ap (ops.load (ops.advance s e n).1) (sym same)
                  ∙ laws.stored s e n (ground (arith, accepted)),
              (let below =
                    laws.grows s e n a (ground (arith, accepted)) (ap (ops.load s) same ∙ h) in
                  omega (arith, below)),
            )
            | inr (x, refused) ↦ (
              a,
              ap (ops.load (ops.advance s e n).1) (sym same)
                  ∙ laws.refused s e n x refused
                  ∙ ap (ops.load s) same
                  ∙ h,
              omega arith,
            )
          ])
    | inr other ↦ (
      a,
      laws.others s e i n (λ same. ground (arith, (bytes_eq_iff e i).1 same)) ∙ h,
      omega arith,
    )
  ]

  -- A refused sequence changes nothing that is stored.
  pub advance-refused :
      StoreLaws ops
      → (s : S) (e : EndpointId) (n : ℕ) (x : Error) → (ops.advance s e n).0 ≡ err x
      → (i : EndpointId) → ops.load (ops.advance s e n).1 i ≡ ops.load s i
  advance-refused laws s e n x h i = elim (Bool-cases (bytes_eq e i)) [
    | inl equal ↦
        let same = (bytes_eq_iff e i).0 equal in
        subst (λ j. ops.load (ops.advance s e n).1 j ≡ ops.load s j) same (laws.refused s e n x h)
    | inr other ↦ laws.others s e i n (λ same. ground (arith, other, (bytes_eq_iff e i).1 same))
  ]
