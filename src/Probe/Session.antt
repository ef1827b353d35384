-- ===== src/Probe/Session.antt =====
-- Session of probe.go: a report over several hosts, against a control host.
pub mod Chosen
mod Tests
use offveil.Prelude.{
  ℕ, Bool, true, false, not, ◌&&◌, ◌||◌, Option, none, some, List, [], ◌∷◌, Text, codes, map,
  is_empty, if◌then◌else◌, text_eq,
}
use offveil.Ruleset.Queries.{default_control_hosts}
use offveil.Probe.{
  Class, class_open, class_dns_poison, class_dpi_reset, class_ip_drop, class_timeout,
  class_throttle_suspect, no_class, path_for, prefer_path, direct,
}
use offveil.Probe.Target.{ProbeResult, World, target_probe}

-- The options that Session reads: whether there is a control host and which, and a time of one.
pub record Options : Type 0 where
  pub skip_control : Bool
  pub control_host : Text
  pub control_tls : ℕ

pub record Report : Type 0 where
  pub results : List ProbeResult
  pub chosen : Text

abbrev control_name : Text → Text
control_name s = if is_empty s then codes "www.microsoft.com" else s

-- The probe of the control host, without the HTTP check.
unfoldable pub control_probe : World → Options → Option ProbeResult
unfolding target_probe text_eq
control_probe w o =
    if o.skip_control || text_eq (control_name o.control_host) (codes "-")
    then none
    else some (target_probe (record w { http_head = λ h. none }) 0 (control_name o.control_host))

abbrev pub is_open : Class → Bool
is_open class_open = true
is_open _ = false

abbrev pub is_healthy : Option ProbeResult → Bool
is_healthy none = true
is_healthy (some r) = is_open r.class

abbrev pub control_time : ℕ → Option ProbeResult → ℕ
control_time given none = given
control_time given (some r) = if is_open r.class then r.took else given

abbrev reclassed : Class → ℕ → ProbeResult → ProbeResult
reclassed class confidence r = record r {
  class = class;
  path = path_for class;
  confidence = confidence;
}

abbrev pub without_control : Class → ProbeResult → ProbeResult
without_control class_throttle_suspect r = reclassed class_open 45 r
without_control class_ip_drop r = reclassed class_timeout 45 r
without_control _ r = r

abbrev pub with_control : Class → ProbeResult → ProbeResult
with_control class_timeout r = reclassed class_dpi_reset 70 r
with_control class_throttle_suspect r = record r { confidence = 85 }
with_control _ r = r

-- A result against a healthy control host, or an unhealthy one.
unfoldable pub weighed : Bool → ProbeResult → ProbeResult
weighed true r = with_control r.class r
weighed false r = without_control r.class r

abbrev pub prefer_all : Text → List ProbeResult → Text
prefer_all chosen [] = chosen
prefer_all chosen (r ∷ rs) = prefer_all (prefer_path chosen r.path) rs

abbrev pub hosts_or : List Text → List Text
hosts_or [] = default_control_hosts
hosts_or (h ∷ hs) = h ∷ hs

abbrev pub probe_all : World → Options → Option ProbeResult → List Text → List ProbeResult
probe_all w o control [] = []
probe_all w o control (h ∷ hs) =
    weighed (is_healthy control) (target_probe w (control_time o.control_tls control) h)
    ∷ probe_all w o control hs

-- Session.
unfoldable pub session : World → List Text → Options → Report
unfolding weighed target_probe control_probe prefer_path
session w hosts o =
    let results = probe_all w o (control_probe w o) (hosts_or hosts) in
    record { results = results; chosen = prefer_all direct results }
