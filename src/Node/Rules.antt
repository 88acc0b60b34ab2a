-- ===== src/Node/Rules.antt =====
-- Rules for statements about the log of calls, for the reads of the node service and its lock.
use dingofs_csi.Common.{String, Bool, List, Option, none, some, lookup}
use dingofs_csi.Common.Exec.{Result, Exec}
use dingofs_csi.Kube.Host.{Event, Sys}
use dingofs_csi.Kube.Host.Rules.{KeepsLog}
use dingofs_csi.Node.{
  NodeState, read, read_value, lock, unlock, set_target, locked_run, with_target_lock,
}

module _ {W : Type 0} (P : List Event → Type 0) where
  pub KeepsLog-read : {A : Type 0} (f : W → Result A × W) → KeepsLog P (read f)
  unfolding read
  KeepsLog-read f = record { at = λ s p. p }

  pub KeepsLog-read_value : {A : Type 0} (f : W → A × W) → KeepsLog P (read_value f)
  unfolding read_value
  KeepsLog-read_value f = record { at = λ s p. p }

  pub with_target_lock-log :
      {A : Type 0} (target : String) (m : Exec (Sys W) A)
      → KeepsLog P m
      → (s : NodeState W) → P s.sys.log
      → P (with_target_lock target m s).1.sys.log
  unfolding with_target_lock lock unlock
  with_target_lock-log target m k s p = by (lookup target s.targets)
    where
      by : (o : Option Bool) → P (locked_run target m (set_target target o s)).1.sys.log
      by (some b) = p
      by none = k.at s.sys p
