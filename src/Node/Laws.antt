-- ===== src/Node/Laws.antt =====
-- Statements about the locks and the calls of NodePublishVolume and NodeUnpublishVolume of
-- pkg/dingofs-driver/node.go.
use dingofs_csi.Common.{
  ℕ, String, Bool, true, Option, none, some, ◌≡◌, refl, ◌∙◌, arith, eq_iff, ◌==◌, lookup, insert,
  lookup-insert, lookup-delete,
}
use dingofs_csi.Common.Exec.{Exec, Keeps, Meets-raise, Meets-if}
use dingofs_csi.Kube.Host.{Sys, Host}
use dingofs_csi.Node.{
  invalid_argument_code, NodeState, NodeCalls, lock, unlock, set_target, locked_run,
  with_target_lock,
}
use dingofs_csi.Node.Options.{PublishRequest}
use dingofs_csi.Node.Publish.{node_publish_volume}
use dingofs_csi.Node.Release.{node_unpublish_volume}

-- The entry of the target `other` in the table of locks stays `o`.
abbrev pub KeepsTarget : {W A : Type 0} → String → Option Bool → Exec (NodeState W) A → Type 0
KeepsTarget other o m = Keeps (λ s. lookup other s.targets ≡ o) m

module _ {W A : Type 0} (target : String) (m : Exec (Sys W) A) where
  with_target_lock-KeepsTarget :
      (other : String) (o : Option Bool) → KeepsTarget other o (with_target_lock target m)
  unfolding with_target_lock lock unlock
  with_target_lock-KeepsTarget other o = record {
    at = λ s p. by s (lookup target s.targets) refl ∙ p;
  }
    where
      by :
          (s : NodeState W) (found : Option Bool)
          → lookup target s.targets ≡ found
          → lookup other (locked_run target m (set_target target found s)).1.targets
            ≡ lookup other s.targets
      by s (some b) e = refl
      by s none e = ground (
        arith,
        lookup-delete target other (insert target true s.targets),
        lookup-insert target other true s.targets,
        eq_iff target other,
      )

module _ {W Mounted : Type 0} (h : Host W) (c : NodeCalls W Mounted) where
  publish-KeepsTarget :
      (fuel : ℕ) (req : PublishRequest) (other : String) (o : Option Bool)
      → KeepsTarget other o (node_publish_volume h c fuel req)
  unfolding node_publish_volume
  publish-KeepsTarget fuel req other o =
      let refused = Meets-raise _ _ invalid_argument_code (λ s p. p) in
      Meets-if _ _ (req.volume_id == "") _ _ (λ _. refused)
        (λ _.
          Meets-if _ _ (req.target_path == "") _ _ (λ _. refused)
            (λ _. with_target_lock-KeepsTarget req.target_path _ other o))

  unpublish-KeepsTarget :
      (fuel : ℕ) (volume_id target other : String) (o : Option Bool)
      → KeepsTarget other o (node_unpublish_volume h c fuel volume_id target)
  unfolding node_unpublish_volume
  unpublish-KeepsTarget fuel volume_id target other o =
      Meets-if _ _ (target == "") _ _ (λ _. Meets-raise _ _ invalid_argument_code (λ s p. p))
        (λ _. with_target_lock-KeepsTarget target _ other o)

  -- NodePublishVolume and NodeUnpublishVolume, whatever they answer, errors included, leave the
  -- lock of every target as they found it.
  pub node_requests-SameTargets :
      (fuel : ℕ) (req : PublishRequest) (volume_id target other : String) (s : NodeState W)
      → (lookup other (node_publish_volume h c fuel req s).1.targets ≡ lookup other s.targets)
        × (lookup other (node_unpublish_volume h c fuel volume_id target s).1.targets
            ≡ lookup other s.targets)
  node_requests-SameTargets fuel req volume_id target other s = (
    (publish-KeepsTarget fuel req other _).at s refl,
    (unpublish-KeepsTarget fuel volume_id target other _).at s refl,
  )
