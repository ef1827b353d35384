-- ===== src/Engine/Status/Frame.antt =====
-- What publishing the status leaves alone.
use offveil.Prelude.{ℕ, ◌≡◌, ◌∙◌, true, not, ◌&&◌, Option, none, some, arith, Bool-cases, inl, inr}
use offveil.Engine.Signals.{Component}
use offveil.Engine.Core.{Engine, is_running}
use offveil.Engine.Status.{
  refresh_network_status, status_update, publish, observe_sessions, refresh_if_idle,
  note_if_running, note_required,
}
use offveil.Engine.Failures.{failed_component}

pub record Kept (e f : Engine) : Type 0 where
  pub session_generation : f.session_generation ≡ e.session_generation
  pub protection : f.protection ≡ e.protection
  pub dns : f.dns ≡ e.dns
  pub des : f.des ≡ e.des
  pub tun : f.tun ≡ e.tun
  pub tunnel_config : f.tunnel_config ≡ e.tunnel_config
  pub strategy_switching : f.strategy_switching ≡ e.strategy_switching
  pub desync_scan : f.desync_scan ≡ e.desync_scan
  pub recovery_attempts : f.recovery_attempts ≡ e.recovery_attempts
  pub last_recovery : f.last_recovery ≡ e.last_recovery
  pub layer : f.layer ≡ e.layer
  pub classification : f.classification ≡ e.classification
  pub groups : f.groups ≡ e.groups
  pub group_work : f.group_work ≡ e.group_work
  pub lifecycle_generation : f.lifecycle_generation ≡ e.lifecycle_generation
  pub dns_configured : f.dns_configured ≡ e.dns_configured
  pub desync_configured : f.desync_configured ≡ e.desync_configured
  pub layer_retries : f.layer_retries ≡ e.layer_retries
  pub hooks : f.hooks ≡ e.hooks
  pub called : f.called ≡ e.called
  pub reclassify : f.reclassify ≡ e.reclassify
  pub last_classify : f.last_classify ≡ e.last_classify
  pub fingerprint : f.fingerprint ≡ e.fingerprint
  pub last_path_check : f.last_path_check ≡ e.last_path_check
  pub healing : f.healing ≡ e.healing
  pub heal_count : f.heal_count ≡ e.heal_count
  pub running : is_running e.state ≡ true → is_running f.state ≡ true

pub refresh-Kept : (e : Engine) → Kept e (refresh_network_status e)
unfolding refresh_network_status
refresh-Kept e = ground arith

note_required-Kept : (c : Option (Component × ℕ)) (e : Engine) → Kept e (note_required c e)
unfolding note_required
note_required-Kept none e = ground arith
note_required-Kept (some (c, pid)) e = ground arith

pub Kept-trans : {e f g : Engine} → Kept e f → Kept f g → Kept e g
Kept-trans {e} {f} {g} p q = record {
  session_generation = q.session_generation ∙ p.session_generation;
  protection = q.protection ∙ p.protection;
  dns = q.dns ∙ p.dns;
  des = q.des ∙ p.des;
  tun = q.tun ∙ p.tun;
  tunnel_config = q.tunnel_config ∙ p.tunnel_config;
  strategy_switching = q.strategy_switching ∙ p.strategy_switching;
  desync_scan = q.desync_scan ∙ p.desync_scan;
  recovery_attempts = q.recovery_attempts ∙ p.recovery_attempts;
  last_recovery = q.last_recovery ∙ p.last_recovery;
  layer = q.layer ∙ p.layer;
  classification = q.classification ∙ p.classification;
  groups = q.groups ∙ p.groups;
  group_work = q.group_work ∙ p.group_work;
  lifecycle_generation = q.lifecycle_generation ∙ p.lifecycle_generation;
  dns_configured = q.dns_configured ∙ p.dns_configured;
  desync_configured = q.desync_configured ∙ p.desync_configured;
  layer_retries = q.layer_retries ∙ p.layer_retries;
  hooks = q.hooks ∙ p.hooks;
  called = q.called ∙ p.called;
  reclassify = q.reclassify ∙ p.reclassify;
  last_classify = q.last_classify ∙ p.last_classify;
  fingerprint = q.fingerprint ∙ p.fingerprint;
  last_path_check = q.last_path_check ∙ p.last_path_check;
  healing = q.healing ∙ p.healing;
  heal_count = q.heal_count ∙ p.heal_count;
  running = λ h. q.running (p.running h);
}

Kept-refl : (e : Engine) → Kept e e
Kept-refl e = ground arith

pub observe_sessions-Kept : (e : Engine) → Kept e (observe_sessions e)
unfolding observe_sessions
observe_sessions-Kept e = ground arith

refresh_if_idle-Kept : (e : Engine) → Kept e (refresh_if_idle e)
unfolding refresh_if_idle
refresh_if_idle-Kept e = elim (Bool-cases (e.protection && not e.strategy_switching)) [
  | inl h ↦ rw h (refresh-Kept e)
  | inr h ↦ rw h (Kept-refl e)
]

pub note_if_running-Kept : (e : Engine) → Kept e (note_if_running e)
unfolding note_if_running
note_if_running-Kept e = elim (Bool-cases (e.protection && is_running e.state)) [
  | inl h ↦ rw h (note_required-Kept (failed_component e) e)
  | inr h ↦ rw h (Kept-refl e)
]

pub status_update-Kept : (e : Engine) → Kept e (status_update e)
unfolding status_update
status_update-Kept e = Kept-trans (observe_sessions-Kept e) (
    Kept-trans (refresh_if_idle-Kept (observe_sessions e))
      (note_if_running-Kept (refresh_if_idle (observe_sessions e))))

-- Publishing keeps the sessions, the groups, the layer, the counters of attempts and the generation,
-- so work of the running session stays current.
pub publish-Kept : (e : Engine) → Kept e (publish e)
unfolding publish
publish-Kept e = Kept-trans (status_update-Kept e) (status_update-Kept (status_update e))
