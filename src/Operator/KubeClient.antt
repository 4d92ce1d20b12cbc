-- ===== src/Operator/KubeClient.antt =====
-- `KubePodClient` of internal/operator/kube_client.go: the pods of the reconciler in the Kubernetes
-- API.
use kubebox.Common.{
  ℕ, [], ◌∷◌, List, Text, codes, is_empty, Map, lookup, Option, none, some, Bool, true, false, not,
  ◌&&◌, if◌then◌else◌, ◌≡◌, refl,
}
use kubebox.Operator.Reconciler.{
  Pod, PodClient, PodResult, found, failing, PodError, not_found, already_exists, other,
}

-- An error of the API: what `apierrors` says of it, and its text.
pub record KubeError : Type 0 where
  pub is_not_found : Bool
  pub is_already_exists : Bool
  pub text : Text

pub data ConditionType : Type 0 where
  pod_ready pod_initialized : ConditionType
  other_condition : Text → ConditionType

pub record PodCondition : Type 0 where
  pub kind : ConditionType
  -- Whether the status is `True`.
  pub is_true : Bool

pub record OwnerReference : Type 0 where
  pub api_version : Text
  pub kind : Text
  pub name : Text
  pub uid : Text
  pub is_controller : Bool
  pub blocks_deletion : Bool

pub record SecurityContext : Type 0 where
  pub run_as_non_root : Bool
  pub read_only_root : Bool
  pub allow_escalation : Bool
  pub dropped : List Text

pub record Container : Type 0 where
  pub name : Text
  pub image : Text
  pub command : List Text
  pub args : List Text
  pub env : Map Text
  pub ports : Map ℕ
  pub mounts : Map Text
  pub security : SecurityContext

pub record PodSpec : Type 0 where
  pub runtime_class_name : Option Text
  pub containers : List Container
  -- Volumes that are empty directories.
  pub volumes : List Text
  pub automounts_token : Bool
  pub run_as_non_root : Bool

-- A pod of the API: the fields that the client reads or writes.
pub record KubePod : Type 0 where
  pub namespace : Text
  pub name : Text
  pub labels : Map Text
  pub owners : List OwnerReference
  pub is_deleting : Bool
  pub spec : PodSpec
  pub conditions : List PodCondition
  -- Whether each container is ready.
  pub containers_ready : List Bool
  pub pod_ip : Text

pub data KubeResult : Type 0 where
  got : KubePod → KubeResult
  refused : KubeError → KubeResult

-- The client of the API over the state `C` of a cluster.
pub record KubeApi (C : Type 0) : Type 0 where
  pub get : C → Text → Text → KubeResult
  pub create : C → KubePod → C × Option KubeError
  pub delete : C → Text → Text → C × Option KubeError

abbrev pub value_or_empty : Option Text → Text
value_or_empty none = []
value_or_empty (some v) = v

-- The loop over the conditions: the last of each kind counts.
unfoldable pub read_conditions : List PodCondition → Bool → Bool → Bool × Bool
read_conditions [] is_ready is_healthy = (is_ready, is_healthy)
read_conditions (c ∷ cs) is_ready is_healthy =
    read_conditions cs (ready_after c.kind) (healthy_after c.kind)
  where
    ready_after : ConditionType → Bool
    ready_after pod_ready = c.is_true
    ready_after _ = is_ready

    healthy_after : ConditionType → Bool
    healthy_after pod_initialized = c.is_true
    healthy_after _ = is_healthy

abbrev pub first_ready : List Bool → Bool → Bool
first_ready [] is_healthy = is_healthy
first_ready (r ∷ rs) is_healthy = is_healthy && r

unfoldable pub pod_from_kube : KubePod → Pod
unfolding read_conditions
pod_from_kube object =
    let (is_ready, is_healthy) = read_conditions object.conditions false false in
    record {
      namespace = object.namespace;
      name = object.name;
      runtime_class = value_or_empty object.spec.runtime_class_name;
      sandbox_id = [];
      owner_uid = [];
      ip = object.pod_ip;
      labels = object.labels;
      is_ready = is_ready;
      is_healthy = first_ready object.containers_ready is_healthy;
      is_deleted = object.is_deleting;
    }

abbrev pub claim_label : Pod → Text
claim_label pod = value_or_empty (lookup (codes "kubebox.io/claim") pod.labels)

unfoldable pub owners_of : Pod → List OwnerReference
owners_of pod =
    if not (is_empty pod.owner_uid) && not (is_empty (claim_label pod))
    then record {
      api_version = codes "sandbox.kubebox.io/v1alpha1";
      kind = codes "SandboxClaim";
      name = claim_label pod;
      uid = pod.owner_uid;
      is_controller = true;
      blocks_deletion = true;
    }
      ∷ []
    else []

abbrev pub container_of : Text → Container
container_of sandbox_id = record {
  name = codes "envd";
  image = codes "kubebox-envd:dev";
  command = codes "/usr/local/bin/envd" ∷ [];
  args =
      codes "--sandbox-id"
      ∷ sandbox_id
      ∷ codes "--root"
      ∷ codes "/sandbox"
      ∷ codes "--grpc-addr"
      ∷ codes ":50051"
      ∷ codes "--http-addr"
      ∷ codes ":8080"
      ∷ [];
  env =
      (codes "KUBEBOX_SANDBOX_ID", sandbox_id)
      ∷ (codes "KUBEBOX_SANDBOX_ROOT", codes "/sandbox")
      ∷ [];
  ports = (codes "grpc", 50051) ∷ (codes "http", 8080) ∷ [];
  mounts = (codes "sandbox", codes "/sandbox") ∷ [];
  security = record {
    run_as_non_root = true;
    read_only_root = true;
    allow_escalation = false;
    dropped = codes "ALL" ∷ [];
  };
}

-- The object that `Create` sends, without a status.
unfoldable pub object_of : Pod → KubePod
unfolding owners_of
object_of pod =
    let sandbox_id = if is_empty pod.sandbox_id then pod.name else pod.sandbox_id in
    record {
      namespace = pod.namespace;
      name = pod.name;
      labels = pod.labels;
      owners = owners_of pod;
      is_deleting = false;
      spec = record {
        runtime_class_name = some pod.runtime_class;
        containers = container_of sandbox_id ∷ [];
        volumes = codes "sandbox" ∷ [];
        automounts_token = false;
        run_as_non_root = true;
      };
      conditions = [];
      containers_ready = [];
      pod_ip = [];
    }

unfoldable pub get_answer : KubeResult → PodResult
unfolding pod_from_kube
get_answer (refused e) = if e.is_not_found then failing not_found else failing (other e.text)
get_answer (got object) = found (pod_from_kube object)

unfoldable pub create_answer : {C : Type 0} → C × Option KubeError → C × Option PodError
create_answer (c, none) = (c, none)
create_answer (c, some e) = (c, some (if e.is_already_exists then already_exists else other e.text))

unfoldable pub delete_answer : {C : Type 0} → C × Option KubeError → C × Option PodError
delete_answer (c, none) = (c, none)
delete_answer (c, some e) = (c, some (if e.is_not_found then not_found else other e.text))

module _ {C : Type 0} (api : KubeApi C) where
  unfoldable pub kube_get : C → Text → Text → PodResult
  unfolding get_answer
  kube_get c namespace name = get_answer (api.get c namespace name)

  unfoldable pub kube_create : C → Pod → C × Option PodError
  unfolding create_answer object_of
  kube_create c pod = create_answer (api.create c (object_of pod))

  unfoldable pub kube_delete : C → Text → Text → C × Option PodError
  unfolding delete_answer
  kube_delete c namespace name = delete_answer (api.delete c namespace name)

  -- The client as the reconciler's interface.
  abbrev pub kube_pod_client : PodClient C
  kube_pod_client = record { get = kube_get; create = kube_create; delete = kube_delete }

-- A pod that was sent reads back as it was, but for the names of its sandbox and owner, which are not
-- read, and is not ready, not healthy and not being deleted until the cluster says so.
pub pod_from_kube-object_of :
    (pod : Pod)
    → pod_from_kube (object_of pod) ≡ record pod {
      sandbox_id = [];
      owner_uid = [];
      ip = [];
      is_ready = false;
      is_healthy = false;
      is_deleted = false;
    }
unfolding pod_from_kube object_of read_conditions
pod_from_kube-object_of pod = refl
