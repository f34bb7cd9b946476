-- ===== src/Remote/Logs/Closed.antt =====
-- What the operations of pkg/util/remote_ops.go leave open.
use wildfly_operator.Prelude.{ℕ, suc, ◌-◌, ◌≡◌, Bool, Option, List, [], ◌∷◌, String, arith}
use wildfly_operator.Remote.{
  RemotePod, Backend, Call, started, opened_log, closed_log, dialed, set_deadline, sent,
  get_kube_rest_config, get_kube_core_client,
}
use wildfly_operator.Remote.Logs.{
  read_pod_log, reader_to_string, obtain_log_latest_timestamp, verify_log_contains_regexp,
}

-- The readers of logs that are open after the calls.
abbrev pub open_logs : List Call → ℕ
open_logs [] = 0
open_logs (opened_log p o ∷ calls) = suc (open_logs calls)
open_logs (closed_log ∷ calls) = open_logs calls - 1
open_logs (started r ∷ calls) = open_logs calls
open_logs (dialed a t ∷ calls) = open_logs calls
open_logs (set_deadline t ∷ calls) = open_logs calls
open_logs (sent s ∷ calls) = open_logs calls

verify-open_logs :
    (p : RemotePod) (since : Option ℕ) (test : String → Bool) (b : Backend) (calls : List Call)
    → open_logs (verify_log_contains_regexp p since test b calls).1 ≡ open_logs calls
unfolding verify_log_contains_regexp read_pod_log get_kube_rest_config get_kube_core_client
verify-open_logs p since test b calls = ground arith

obtain-open_logs :
    (p : RemotePod) (b : Backend) (calls : List Call)
    → open_logs (obtain_log_latest_timestamp p b calls).1 ≡ open_logs calls
unfolding obtain_log_latest_timestamp read_pod_log get_kube_rest_config get_kube_core_client
    reader_to_string
obtain-open_logs p b calls = ground arith

-- Neither operation on a log leaves a reader open, whatever fails on the way.
pub log_readers_closed :
    (p : RemotePod) (since : Option ℕ) (test : String → Bool) (b : Backend) (calls : List Call)
    → (open_logs (verify_log_contains_regexp p since test b calls).1 ≡ open_logs calls)
      × (open_logs (obtain_log_latest_timestamp p b calls).1 ≡ open_logs calls)
log_readers_closed p since test b calls =
    (verify-open_logs p since test b calls, obtain-open_logs p b calls)
