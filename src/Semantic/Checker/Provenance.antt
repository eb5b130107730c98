-- ===== src/Semantic/Checker/Provenance.antt =====
-- How compiler/src/semantic/TypeChecker.cpp merges what it knows of slices behind branches and
-- loops.
use kai_cc.Base.{List, [], ◌∷◌, ℕ, Option, none, some, find, insert_or_assign}
use kai_cc.Semantic.Model.{SemanticModel, SliceProvenance}
use kai_cc.Semantic.Updates.{
  Provenances, id_key, provenance_in, set_slice_provenance, end_touch_tracking,
}

unfoldable pub merge_slice_provenance : SliceProvenance → SliceProvenance → SliceProvenance
merge_slice_provenance SliceProvenance.external SliceProvenance.external = SliceProvenance.external
merge_slice_provenance SliceProvenance.local SliceProvenance.local = SliceProvenance.local
merge_slice_provenance _ _ = SliceProvenance.unknown

abbrev pub provenance_or : SliceProvenance → ℕ → Provenances → SliceProvenance
provenance_or entry id entries = elim (find id entries) [ some p ↦ p | none ↦ entry ]

-- The loop over the entries in front of the branches: `merged` and `branch` are what the branches
-- before and this one left behind.
unfoldable pub merge_entries : Provenances → Provenances → Provenances → Provenances → Provenances
merge_entries entry [] branch merged = merged
merge_entries entry ((id, _) ∷ ids) branch merged =
    let before = provenance_in id entry in
    let p =
      merge_slice_provenance (provenance_or before id merged) (provenance_or before id branch) in
    merge_entries entry ids branch (insert_or_assign id p merged)

-- The first branch's entries are taken as they are.
unfoldable pub merge_in_branch_result :
    Provenances → Option Provenances → Provenances → Option Provenances
merge_in_branch_result entry none branch = some branch
merge_in_branch_result entry (some merged) branch = some (merge_entries entry entry branch merged)

unfoldable pub set_all_unknown : List ℕ → SemanticModel → SemanticModel
set_all_unknown [] m = m
set_all_unknown (id ∷ ids) m =
    set_all_unknown ids (set_slice_provenance id SliceProvenance.unknown m)

-- What was assigned in a loop's body is unknown behind it.
unfoldable pub leave_loop : SemanticModel → SemanticModel
leave_loop m = let (touched, m') = end_touch_tracking m in set_all_unknown touched m'
