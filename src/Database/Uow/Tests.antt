-- ===== src/Database/Uow/Tests.antt =====
-- Runs of the unit of work.
use devkit_go.Prelude.{ℕ, ◌≡◌, refl, true, false, none, some, [], ◌++◌, suc, ◌+◌, Result, ok, err}
use devkit_go.Database.{Error, driver, nested_transaction}
use devkit_go.Database.Uow.{World, Driver, do_uow, default_options}
use devkit_go.Database.Uow.Ending.{expected_result, expected_calls, expected_commits}
use devkit_go.Database.Uow.Accepting.{started_world, do_uow-refused, do_uow-ends}

abbrev idle_world : World
idle_world = record {
  manager = record { closed = false; active = 2; read_only = false };
  active_ids = λ i. false;
  calls = [];
  committed = 0;
  rolled_back = 0;
}

-- A driver whose commits fail.
abbrev failing_driver : Driver
failing_driver = record {
  begin_answer = λ w opts. none;
  commit_answer = λ w. some driver;
  rollback_answer = λ w. some driver;
}

abbrev seven : World → Result Error ℕ × World
seven w = (ok 7, w)

do_uow-ends_example :
    let after = do_uow failing_driver 4 false default_options [] seven idle_world in
    let s = seven (started_world 4 idle_world) in
    (after.0 ≡ expected_result s.0 (some driver))
    × (after.1.calls ≡ expected_calls s.0 (some driver) ++ s.1.calls)
    × (after.1.manager.active ≡ 2)
    × (after.1.active_ids 4 ≡ false)
    × (after.1.committed ≡ expected_commits s.0 (some driver) + s.1.committed)
    × (after.1.committed + after.1.rolled_back ≡ suc (s.1.committed + s.1.rolled_back))
do_uow-ends_example =
    do_uow-ends failing_driver 4 false default_options [] seven idle_world refl refl

abbrev closed_world : World
closed_world = record idle_world {
  manager = record { closed = false; active = 2; read_only = false };
  active_ids = λ i. true;
}

do_uow-refused_example :
    let after = do_uow failing_driver 4 false default_options [] seven closed_world in
    (after.0 ≡ err nested_transaction)
    × (after.1.calls ≡ [])
    × (after.1.manager ≡ closed_world.manager)
    × (after.1.active_ids 9 ≡ true)
do_uow-refused_example =
    do_uow-refused failing_driver 4 false default_options [] seven closed_world 9 refl
