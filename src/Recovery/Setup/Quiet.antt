-- ===== src/Recovery/Setup/Quiet.antt =====
-- setupRecoveryPropertiesAndRestart of controllers/transaction_recovery.go writes no StatefulSet.
use wildfly_operator.Prelude.{Option, none, some}
use wildfly_operator.Json.{Fields}
use wildfly_operator.Kube.{Pod}
use wildfly_operator.Api.{WildFlyServer}
use wildfly_operator.World.{Result}
use wildfly_operator.World.Quiet.{Quiet}
use wildfly_operator.Mgmt.{MgmtError}
use wildfly_operator.Mgmt.Quiet.{mgmt_quiet}
use wildfly_operator.Resources.Quiet.{client_quiet}
use wildfly_operator.Recovery.Setup.{
  after_restart, restart, after_properties, set_properties, after_running, set_up_recovery,
}

module _ (w : WildFlyServer) (p : Pod) where
  after_restart-Quiet : (e : Option MgmtError) → Quiet (after_restart w p e)
  unfolding after_restart
  after_restart-Quiet (some e) = search client_quiet
  after_restart-Quiet none = search client_quiet

  restart-Quiet : Quiet (restart w p)
  unfolding restart
  restart-Quiet = search (mgmt_quiet, after_restart-Quiet)

  after_properties-Quiet : (r : Result MgmtError Fields) → Quiet (after_properties w p r)
  unfolding after_properties
  after_properties-Quiet r = search (mgmt_quiet, restart-Quiet)

  set_properties-Quiet : Quiet (set_properties w p)
  unfolding set_properties
  set_properties-Quiet = search (mgmt_quiet, after_properties-Quiet)

  after_running-Quiet : (e : Option MgmtError) → Quiet (after_running w p e)
  unfolding after_running
  after_running-Quiet (some e) = search mgmt_quiet
  after_running-Quiet none = search (mgmt_quiet, set_properties-Quiet)

  pub set_up_recovery-Quiet : Quiet (set_up_recovery w p)
  unfolding set_up_recovery
  set_up_recovery-Quiet = search (mgmt_quiet, after_running-Quiet)
