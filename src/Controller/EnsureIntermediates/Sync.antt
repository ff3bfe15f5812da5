-- ===== src/Controller/EnsureIntermediates/Sync.antt =====
-- pkirotation_ensure_intermediates.go: syncChildSKIDs, which hands each child its key identifier.
use private_pki_operator.Common.{String, not, ◌||◌, some, List, [], ◌∷◌, ◌==◌, if◌then◌else◌}
use private_pki_operator.Action.{text, Action, pure, within, handle, ◌>>=◌, ◌>>◌}
use private_pki_operator.Api.{PkiRotation, is_intermediate_ca}
use private_pki_operator.Cluster.{Client}
use private_pki_operator.Controller.State.{State, call, get_pkir}
use private_pki_operator.Controller.EnsureIntermediates.{
  owner_pkir_label, is_owned, sync_status, intermediate_skid,
}

module _ {W : Type 0} (c : Client W) where
  -- The last step for a child in `syncChildSKIDs`. A failed write is logged.
  unfoldable pub sync_child_to : PkiRotation → String → Action (State W) Unit
  sync_child_to child skid =
      if child.status.current_skid == skid
      then pure tt
      else handle (call (c.update_status (record child { status = sync_status skid child.status })))
          (λ _. pure tt) (λ _. pure tt)

  -- One round of `syncChildSKIDs`. A SKID that cannot be read is logged and skipped.
  unfoldable pub sync_child : PkiRotation → PkiRotation → Action (State W) Unit
  sync_child root child =
      if child.name == root.name
        || (not (is_intermediate_ca child.spec.role) || not (is_owned root child))
      then pure tt
      else handle (intermediate_skid c child) (sync_child_to child) (λ _. pure tt)

  unfoldable pub sync_children : PkiRotation → List PkiRotation → Action (State W) Unit
  sync_children root [] = pure tt
  sync_children root (child ∷ children) = sync_child root child >> sync_children root children

  -- `syncChildSKIDs`.
  unfoldable pub sync_child_skids : Action (State W) Unit
  sync_child_skids = do
    root ← get_pkir
    children ←
        within (text "listing child PKIRotation CRs" ∷ [])
          (call (c.list_pki_rotations (some (owner_pkir_label, root.name))))
    sync_children root children
