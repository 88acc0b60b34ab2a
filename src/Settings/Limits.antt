-- ===== src/Settings/Limits.antt =====
-- getDefaultResource and ParsePodResources of pkg/config/dfs_setting.go, over the quantities of
-- k8s.io/apimachinery.
pub mod Laws
use dingofs_csi.Common.{
  ℕ, String, Bool, List, [], ◌∷◌, Option, none, some, Dict, ◌==◌, if◌then◌else◌, insert, delete,
}
use dingofs_csi.Common.Exec.{Result, ok, err, other}
use dingofs_csi.Kube.{Resources}

-- resource.ParseQuantity, whether a quantity is above zero, and its Value.
pub record Quantities : Type 0 where
  pub parse_quantity : String → Option String
  pub is_positive : String → Bool
  pub value : String → ℕ

abbrev pub default_limits : Dict
default_limits = ("cpu", "4000m") ∷ ("memory", "12Gi") ∷ []

abbrev pub default_requests : Dict
default_requests = ("cpu", "2000m") ∷ ("memory", "6Gi") ∷ []

unfoldable pub get_default_resource : Resources
get_default_resource = record { requests = default_requests; limits = default_limits }

module _ (q : Quantities) where
  abbrev pub set_parsed : (key : String) → Dict → Option String → Result Dict
  set_parsed key m none = err other
  set_parsed key m (some quantity) =
      if q.is_positive quantity then ok (insert key quantity m) else ok (delete key m)

  -- One of the four texts: an empty one leaves the default, and zero takes the entry away.
  unfoldable pub set_quantity : (key text : String) → Dict → Result Dict
  unfolding insert delete
  set_quantity key text m = if text == "" then ok m else set_parsed key m (q.parse_quantity text)

  abbrev pub then_set : (key text : String) → Result Dict → Result Dict
  then_set key text (err e) = err e
  then_set key text (ok m) = set_quantity key text m

  abbrev pub both : Result Dict → Result Dict → Result Resources
  both (err e) requests = err e
  both (ok limits) (err e) = err e
  both (ok limits) (ok requests) = ok (record { requests = requests; limits = limits })

  -- ParsePodResources: the first text that does not parse ends it.
  unfoldable pub parse_pod_resources :
      (cpu_limit memory_limit cpu_request memory_request : String) → Result Resources
  unfolding set_quantity
  parse_pod_resources cpu_limit memory_limit cpu_request memory_request =
      both (then_set "memory" memory_limit (set_quantity "cpu" cpu_limit default_limits))
        (then_set "memory" memory_request (set_quantity "cpu" cpu_request default_requests))
