-- ===== src/Remote/Exec/Success.antt =====
-- When Execute of pkg/util/remote_ops.go answers without an error.
use wildfly_operator.Prelude.{
  ◌≡◌, refl, ap, ◌↔◌, Option, none, some, List, [], ◌∷◌, String, eq_iff, arith,
}
use wildfly_operator.Kube.{Opaque}
use wildfly_operator.World.{Result, ok, err}
use wildfly_operator.Remote.{
  RemotePod, ExecOutput, Backend, Failure, Call, get_kube_rest_config, get_kube_core_client,
}
use wildfly_operator.Remote.Exec.{exec_request, prepare, streamed, run_prepared, execute}

-- The command ran in the first container, the stream ended well, and nothing came on stderr.
abbrev pub RanWell : RemotePod → List String → Backend → String → Type 0
RanWell p command b out =
    (config : Opaque) × (client : Opaque) × (container : String) × (more : List String)
    × (b.client_config ≡ ok config)
    × (b.new_for_config config ≡ ok client)
    × (p.containers ≡ container ∷ more)
    × (b.new_executor config (exec_request p container command) ≡ none)
    × (b.stream (exec_request p container command)
        ≡ record { stdout = out; stderr = ""; error = none })

streamed_well :
    (o : ExecOutput) (out : String)
    → streamed o ≡ (out, none)
    → o ≡ record { stdout = out; stderr = ""; error = none }
unfolding streamed
streamed_well o out h = ground (arith, eq_iff o.stderr "")

error_is_none :
    {A : Type 0} {x y : String} {f : Failure}
    → ◌≡◌ {A = String × Option Failure} (x, some f) (y, none)
    → A
error_is_none {f} h =
    let e : some f ≡ none = ap (λ (q : String × Option Failure). q.1) h in absurd cc

-- One answer after another: each one that is an error is the operation's.
module _ (p : RemotePod) (command : List String) (b : Backend) (calls : List Call) (out : String)
    (h : (execute p command b calls).0 ≡ (out, none)) where
  at_executor :
      (config client container : String) (more : List String) (e : Option Opaque)
      → b.client_config ≡ ok config
      → b.new_for_config config ≡ ok client
      → p.containers ≡ container ∷ more
      → b.new_executor config (exec_request p container command) ≡ e
      → RanWell p command b out
  unfolding execute run_prepared prepare get_kube_rest_config get_kube_core_client
  at_executor config client container more none a c d f =
      (config, client, container, more, a, c, d, f, streamed_well _ out (rw (a, c, d, f) at h))
  at_executor config client container more (some e) a c d f = error_is_none (rw (a, c, d, f) at h)

  at_containers :
      (config client : String) (containers : List String)
      → b.client_config ≡ ok config
      → b.new_for_config config ≡ ok client
      → p.containers ≡ containers
      → RanWell p command b out
  unfolding execute run_prepared prepare get_kube_rest_config get_kube_core_client
  at_containers config client [] a c d = error_is_none (rw (a, c, d) at h)
  at_containers config client (container ∷ more) a c d =
      at_executor config client container more _ a c d refl

  at_client :
      (config : String) (r : Result Opaque Opaque)
      → b.client_config ≡ ok config
      → b.new_for_config config ≡ r
      → RanWell p command b out
  unfolding execute run_prepared prepare get_kube_rest_config get_kube_core_client
  at_client config (err e) a c = error_is_none (rw (a, c) at h)
  at_client config (ok client) a c = at_containers config client _ a c refl

  at_config : (r : Result Opaque Opaque) → b.client_config ≡ r → RanWell p command b out
  unfolding execute run_prepared prepare get_kube_rest_config get_kube_core_client
  at_config (err e) a = error_is_none (rw a at h)
  at_config (ok config) a = at_client config _ a refl

RanWell-execute :
    (p : RemotePod) (command : List String) (b : Backend) (calls : List Call) (out : String)
    → RanWell p command b out
    → (execute p command b calls).0 ≡ (out, none)
unfolding execute run_prepared prepare get_kube_rest_config get_kube_core_client streamed
RanWell-execute p command b calls out (config, client, container, more, a, c, d, f, g) =
    rw (a, c, d, f, g) refl

-- Execute answers with an output and no error exactly when a configuration and a client were found, the
-- pod has a container, the executor was made, the stream ended with no error, and stderr stayed
-- empty; the output is then that of stdout in the pod's first container.
pub execute_iff :
    (p : RemotePod) (command : List String) (b : Backend) (calls : List Call) (out : String)
    → ((execute p command b calls).0 ≡ (out, none)) ↔ RanWell p command b out
execute_iff p command b calls out =
    (λ h. at_config p command b calls out h _ refl, RanWell-execute p command b calls out)
