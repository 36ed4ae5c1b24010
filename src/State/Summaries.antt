-- ===== src/State/Summaries.antt =====
-- The proofs of the historical summaries in a state (src/portal_types/consensus/beacon_state.rs), at the
-- generalized index of src/portal_types/consensus/historical_summaries.rs.
use eth_historian.Base.{ℕ, ◌+◌, ◌*◌, ◌^◌, ◌≡◌, refl, sym, ap, ◌∙◌, ==_iff, List, ok, arith, B256}
use eth_historian.Merkle.Hashing.{Hashing}
use eth_historian.Merkle.Climb.{climb}
use eth_historian.Merkle.LowBits.{climb-low}
use eth_historian.Beacon.{RootsHashing, IsSound, next_power_of_two, build_merkle_proof_for_index}
use eth_historian.Beacon.Index.{Leads, build_merkle_proof_for_index_lem}
use eth_historian.Beacon.Payload.{TreeHash}
use eth_historian.Beacon.InBlock.{Reaches}
use eth_historian.Beacon.Fields.{container_root}
use eth_historian.State.Fields.{StateRoots, AreDerived}
use eth_historian.State.{
  BeaconStateDeneb, BeaconStateElectra, StateHash, deneb_state_leaves, electra_state_leaves,
  build_historical_summaries_proof_deneb, build_historical_summaries_proof_electra,
}

abbrev pub historical_summaries_gindex : ℕ
historical_summaries_gindex = 91

rounded : (next_power_of_two 28 ≡ 2 ^ 5) × (next_power_of_two 37 ≡ 2 ^ 6)
unfolding next_power_of_two
rounded = (refl, refl)

module _ (H : Hashing) where
  -- The marker bit of a generalized index above the index of a leaf, and the name of the root.
  marked :
      (d index : ℕ) (leaves : List B256) (leaf root : B256) (branch : List B256) (R : RootsHashing)
      → Leads H R d index leaves leaf branch
      → root ≡ container_root H d leaves
      → Reaches H d (1 * 2 ^ d + index) leaf branch root
  marked d index leaves leaf root branch R (l, reached) e = (
    l,
    ap (λ e. climb H (1 * 2 ^ e + index) leaf branch) (sym l)
        ∙ climb-low H 1 index leaf branch
        ∙ reached
        ∙ sym e,
  )

module _ (H : Hashing) (R : RootsHashing) (sound : IsSound H R) (T : TreeHash) (S : StateHash)
    (K : StateRoots) (derived : AreDerived H R T S K) where
  -- The proof of the summaries leads from their root to the hash tree root of the state: in a Deneb state with
  -- 5 nodes at the generalized index 59; in an Electra state, where it is built without a panic, with 6
  -- nodes at `HISTORICAL_SUMMARIES_GINDEX`.
  pub build_historical_summaries_proof_lem :
      {E : Type 0} (d : BeaconStateDeneb) (e : BeaconStateElectra)
      → Reaches H 5 59
          (S.historical_summaries_root d.historical_summaries)
          (build_historical_summaries_proof_deneb R T S d)
          (K.deneb_state_root d)
        × ((proof : List B256) × (build_historical_summaries_proof_electra R T S {E = E} e
              ≡ ok proof)
            × Reaches H 6 historical_summaries_gindex
                (S.historical_summaries_root e.historical_summaries)
                proof
                (K.electra_state_root e))
  unfolding build_historical_summaries_proof_deneb build_historical_summaries_proof_electra
      deneb_state_leaves electra_state_leaves
  build_historical_summaries_proof_lem d e =
      let deneb =
        build_merkle_proof_for_index_lem H R sound (deneb_state_leaves R T S d) 27 5 rounded.0
          (omega arith) (omega arith) (omega arith) in
      let electra =
        build_merkle_proof_for_index_lem H R sound (electra_state_leaves R T S e) 27 6 rounded.1
          (omega arith) (omega arith) (omega arith) in
      (
        marked H 5 27 (deneb_state_leaves R T S d) _ _ _ R deneb (derived.deneb_state_lem d),
        (
          build_merkle_proof_for_index R (electra_state_leaves R T S e) 27,
          rw ((==_iff _ _).1 electra.0) refl,
          marked H 6 27 (electra_state_leaves R T S e) _ _ _ R electra
              (derived.electra_state_lem e),
        ),
      )
