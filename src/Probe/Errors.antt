-- ===== src/Probe/Errors.antt =====
-- classifyTLSErr of probe.go: the class of a failed dial or handshake.
use offveil.Prelude.{
  Bool, true, false, Option, none, some, [], ◌∷◌, Text, codes, if◌then◌else◌, contains_any,
}
use offveil.Probe.{Class, class_dpi_reset, class_ip_drop, class_timeout}

-- The system's error inside a *net.OpError.
pub data Errno : Type 0 where
  conn_reset conn_aborted conn_refused net_unreachable host_unreachable other_errno : Errno

-- A *net.OpError: whether it is of a dial, whether it timed out, and the lower case text of its cause.
pub record OpError : Type 0 where
  pub dial : Bool
  pub timed_out : Bool
  pub errno : Errno
  pub message : Text

-- What errors.Is, errors.As and Error say of an error; `message` is in lower case.
pub record TlsError : Type 0 where
  pub deadline : Bool
  pub op : Option OpError
  pub message : Text
  pub times_out : Bool
  pub ends : Bool

abbrev pub on_dial : Bool → Class → Class
on_dial dial class = if dial then class_ip_drop else class

abbrev is_reset : Errno → Bool
is_reset conn_reset = true
is_reset conn_aborted = true
is_reset _ = false

abbrev is_refusal : Errno → Bool
is_refusal conn_refused = true
is_refusal net_unreachable = true
is_refusal host_unreachable = true
is_refusal _ = false

-- The part of classifyTLSErr on a *net.OpError; none where it decides nothing.
unfoldable pub classify_op : OpError → Option Class
unfolding contains_any
classify_op e =
    if e.timed_out
    then some (on_dial e.dial class_timeout)
    else if is_reset e.errno
    then some (on_dial e.dial class_dpi_reset)
    else if is_refusal e.errno
    then some class_ip_drop
    else if contains_any e.message (codes "forcibly closed" ∷ codes "connection reset" ∷ [])
    then some (on_dial e.dial class_dpi_reset)
    else if contains_any e.message (codes "no route" ∷ codes "network is unreachable" ∷ [])
    then some class_ip_drop
    else none

abbrev pub from_op : Option OpError → Option Class
from_op none = none
from_op (some e) = classify_op e

-- The part of classifyTLSErr on the text and the kind of any error.
unfoldable pub classify_message : TlsError → Class
unfolding contains_any
classify_message e =
    if contains_any e.message
      (codes "i/o timeout" ∷ codes "deadline exceeded" ∷ codes "timed out" ∷ [])
    then on_dial (contains_any e.message (codes "connectex" ∷ codes "dial tcp" ∷ [])) class_timeout
    else if contains_any e.message
        (codes "connection reset" ∷ codes "forcibly closed" ∷ codes "broken pipe" ∷ [])
    then class_dpi_reset
    else if contains_any e.message (
        codes "connection refused"
        ∷ codes "no route"
        ∷ codes "network is unreachable"
        ∷ codes "host is unreachable"
        ∷ [])
    then class_ip_drop
    else if e.times_out
    then class_timeout
    else if e.ends
    then class_dpi_reset
    else if contains_any e.message
        (codes "tls:" ∷ codes "handshake" ∷ codes "certificate" ∷ codes "first record" ∷ [])
    then class_dpi_reset
    else class_timeout

abbrev pub class_or : Class → Option Class → Class
class_or d none = d
class_or d (some c) = c

-- classifyTLSErr, on an error.
unfoldable pub classify_tls_err : TlsError → Class
unfolding classify_op classify_message
classify_tls_err e =
    if e.deadline then class_timeout else class_or (classify_message e) (from_op e.op)
