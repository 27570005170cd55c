-- ===== src/Database/Manager/Tests.antt =====
-- Runs of the manager.
use devkit_go.Prelude.{◌≡◌, ◌⊎◌, refl, arith, true, false, err}
use devkit_go.Database.{Error, manager_closed}
use devkit_go.Database.Manager.{DbManager, enter_tx, leave_tx}
use devkit_go.Database.Manager.Shutdown.{
  fresh, entering, opened, ended, draining, closing, System, set_at, enter, begun, finish, close,
  drained, init, Reach, here, next, adapter_closed_safe,
}
use devkit_go.Database.Manager.Draining.{can_drain}

-- One transaction is begun, the shutdown starts, and the transaction ends.
abbrev waiting : System
waiting = record (init false) {
  manager = record { closed = true; active = 1; read_only = false };
  txs = set_at (init false).txs 0 entering;
  phase = draining;
}

to_waiting : Reach 1 (init false) waiting
unfolding enter_tx devkit_go.Database.Manager.close_manager
to_waiting = next (next here (enter 0 (omega arith) refl refl)) (close refl)

can_drain_example :
    (t : System) × Reach 1 waiting t × (t.phase ≡ closing) × (t.adapter_closed ≡ true)
can_drain_example = can_drain false to_waiting refl

abbrev released : System
released = record waiting {
  manager = record { closed = true; active = 0; read_only = false };
  txs = set_at (set_at waiting.txs 0 opened) 0 ended;
  phase = closing;
  scraper_stopped = true;
  adapter_closed = true;
}

to_released : Reach 1 (init false) released
unfolding leave_tx
to_released =
    next (next (next to_waiting (begun 0 (omega arith) refl)) (finish 0 (omega arith) refl refl))
      (drained refl refl)

adapter_closed_safe_example :
    ((released.txs 0 ≡ fresh) ⊎ (released.txs 0 ≡ ended))
    × (released.scraper_stopped ≡ true)
    × (enter_tx released.manager ≡ err manager_closed)
adapter_closed_safe_example = adapter_closed_safe false 0 to_released refl (omega arith)
