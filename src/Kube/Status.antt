-- ===== src/Kube/Status.antt =====
-- The state of a mount pod: pkg/util/resource/pod.go (IsPodReady to IsPodHasResource) and
-- getPodStatus of pkg/controller/pod_driver.go.
pub mod Laws
use dingofs_csi.Common.{
  ℕ, suc, String, Bool, true, false, not, ◌&&◌, ◌||◌, List, [], ◌∷◌, Option, none, some, map,
  if◌then◌else◌, nat_eq, ◌==◌, any, is_empty, contains,
}
use dingofs_csi.Kube.{
  Phase, failed, unknown, Truth, holds, fails, ConditionKind, containers_ready, pod_ready,
  pod_scheduled, Condition, Terminated, ContainerStatus, Resources, Container, PodSpec, Pod,
}

abbrev pub is_true : Truth → Bool
is_true holds = true
is_true _ = false

abbrev pub is_false : Truth → Bool
is_false fails = true
is_false _ = false

abbrev pub is_readiness : ConditionKind → Bool
is_readiness containers_ready = true
is_readiness pod_ready = true
is_readiness _ = false

abbrev pub is_scheduled : ConditionKind → Bool
is_scheduled pod_scheduled = true
is_scheduled _ = false

-- The loop of IsPodReady.
conditions_true : List Condition → ℕ
conditions_true [] = 0
conditions_true (c ∷ cs) =
    let rest = conditions_true cs in
    if is_true c.status && is_readiness c.kind then suc rest else rest

unfoldable pub is_pod_ready : List Condition → Bool
unfolding conditions_true
is_pod_ready cs = nat_eq (conditions_true cs) 2

waiting_error : Option String → Bool
waiting_error none = false
waiting_error (some reason) = not (reason == "ContainerCreating")

terminated_error : Option Terminated → Bool
terminated_error none = false
terminated_error (some t) = not (nat_eq t.exit_code 0)

unfoldable pub contain_error : List ContainerStatus → Bool
unfolding waiting_error terminated_error
contain_error = any (λ s. waiting_error s.waiting || terminated_error s.terminated)

abbrev pub is_failed : Phase → Bool
is_failed failed = true
is_failed _ = false

abbrev pub is_failed_or_unknown : Phase → Bool
is_failed_or_unknown failed = true
is_failed_or_unknown unknown = true
is_failed_or_unknown _ = false

unfoldable pub is_pod_error : Pod → Bool
unfolding contain_error
is_pod_error p = is_failed_or_unknown p.phase || contain_error p.container_statuses

unfoldable pub is_pod_resource_error : Pod → Bool
unfolding contains
is_pod_resource_error p =
    (is_failed p.phase
      && (contains p.reason "OutOf"
          || (p.reason == "UnexpectedAdmissionError" && contains p.message "to reclaim resources")))
    || any
        (λ c.
          is_false c.status
          && is_scheduled c.kind
          && (c.reason == "Unschedulable")
          && (contains c.message "Insufficient cpu" || contains c.message "Insufficient memory"))
        p.conditions

unfoldable pub clear_resources : Container → Container
clear_resources c = record c { resources = record { requests = []; limits = [] } }

unfoldable pub delete_resource_of_pod : Pod → Pod
unfolding clear_resources
delete_resource_of_pod p = record p {
  spec = record (p.spec) { containers = map clear_resources p.spec.containers };
}

unfoldable pub is_pod_has_resource : Pod → Bool
is_pod_has_resource p = any (λ c. not (is_empty c.resources.requests)) p.spec.containers

pub data PodStatus : Type 0 where
  ready errored deleted pending : PodStatus

-- `none` is the nil pod.
unfoldable pub get_pod_status : Option Pod → PodStatus
get_pod_status none = errored
get_pod_status (some p) =
    if p.deletion_timestamp
    then deleted
    else if is_pod_error p
    then errored
    else if is_pod_ready p.conditions
    then ready
    else pending
