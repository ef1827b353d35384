-- ===== src/Engine/Groups.antt =====
-- Canary groups as the engine tracks them: offveil-core/internal/engine/groups.go. Instants stand for
-- the time stamps that the source formats; a group is found by its id, as the source finds it.
use offveil.Prelude.{
  ℕ, ◌*◌, Bool, false, ◌&&◌, ◌||◌, List, [], ◌∷◌, Option, none, some, Text, text_eq, if◌then◌else◌,
  minute,
}
use offveil.Ruleset.Document.{CanaryGroup, canary_persistent}
use offveil.Engine.Signals.{CheckClass, GroupPath, desync_path, Layer, selective_layer}

abbrev pub group_failure_threshold : ℕ
group_failure_threshold = 2

abbrev pub group_retry_interval : ℕ
group_retry_interval = 10 * minute

abbrev pub crisis_every : ℕ
crisis_every = 5

pub record GroupState : Type 0 where
  pub id : Text
  pub label : Text
  pub kind : Text
  pub hosts : List Text
  pub suffixes : List Text
  pub path : GroupPath
  pub class : Option CheckClass
  pub ok : Bool
  pub checked : Bool
  pub failures : ℕ
  pub unreachable : Bool
  pub checked_at : ℕ
  pub last_scan : ℕ
  pub last_escalation : ℕ

abbrev fresh_group : CanaryGroup → GroupState
fresh_group g = record {
  id = g.id;
  label = g.label;
  kind = g.kind;
  hosts = g.probe_hosts;
  suffixes = g.domain_suffix;
  path = desync_path;
  class = none;
  ok = false;
  checked = false;
  failures = 0;
  unreachable = false;
  checked_at = 0;
  last_scan = 0;
  last_escalation = 0;
}

-- initGroupsLocked.
unfoldable pub init_groups : List CanaryGroup → List GroupState
init_groups [] = []
init_groups (g ∷ gs) = fresh_group g ∷ init_groups gs

-- groupLocked.
unfoldable pub find_group : Text → List GroupState → Option GroupState
find_group id [] = none
find_group id (g ∷ gs) = if text_eq g.id id then some g else find_group id gs

-- A write through the pointer that groupLocked returns.
unfoldable pub update_group : Text → (GroupState → GroupState) → List GroupState → List GroupState
update_group id f [] = []
update_group id f (g ∷ gs) = if text_eq g.id id then f g ∷ gs else g ∷ update_group id f gs

-- groupPathsLocked.
abbrev pub group_paths : List GroupState → List (Text × GroupPath)
group_paths [] = []
group_paths (g ∷ gs) = (g.id, g.path) ∷ group_paths gs

-- canaryGroupsLocked.
abbrev pub canary_groups : List GroupState → List CanaryGroup
canary_groups [] = []
canary_groups (g ∷ gs) =
    record {
      id = g.id;
      label = [];
      kind = g.kind;
      probe_hosts = g.hosts;
      domain_suffix = g.suffixes;
    }
    ∷ canary_groups gs

-- The exported path of a group: direct outside the selective layer.
pub data PathView : Type 0 where
  direct_view : PathView
  group_view : GroupPath → PathView

pub record GroupHealth : Type 0 where
  pub id : Text
  pub kind : Text
  pub path : PathView
  pub healthy : Bool
  pub checked : Bool
  pub unreachable : Bool
  pub class : Option CheckClass
  pub checked_at : ℕ

abbrev path_view : Layer → GroupPath → PathView
path_view selective_layer p = group_view p
path_view _ p = direct_view

-- groupHealthLocked.
unfoldable pub group_health : Layer → List GroupState → List GroupHealth
group_health layer [] = []
group_health layer (g ∷ gs) =
    record {
      id = g.id;
      kind = g.kind;
      path = path_view layer g.path;
      healthy = g.ok;
      checked = g.checked;
      unreachable = g.unreachable;
      class = g.class;
      checked_at = g.checked_at;
    }
    ∷ group_health layer gs

-- persistentUnreachableLocked.
unfoldable pub persistent_unreachable : List GroupState → Bool
persistent_unreachable [] = false
persistent_unreachable (g ∷ gs) =
    (text_eq g.kind canary_persistent && g.unreachable) || persistent_unreachable gs
