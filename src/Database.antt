-- ===== src/Database.antt =====
-- pkg/database: the manager of connections, the unit of work, and the configurations of each database.
pub mod Manager
pub mod Uow
pub mod Dsn
pub mod Env

-- pkg/database/errors.go, as far as the manager and the unit of work use it. `driver` is an error that
-- a database driver or the caller's function gives; the texts that wrap an error are left out.
pub data Error : Type 0 where
  manager_closed shutdown_timeout nested_transaction : Error
  driver : Error
