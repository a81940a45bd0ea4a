-- ===== src/Demuxer/Steps.antt =====
-- The threads of the manager as a step relation: each step holds the lock, or is the monitor's own.
use jumpstarter.Common.{String}
use jumpstarter.Demuxer.{
  Manager, Registration, new_manager, register_driver, unregister_driver, cleanup, read_line,
  clear_ready, find_device, start_demuxer_process, cleanup_demuxer_process,
}

pub data Step : Manager → Manager → Type 0 where
  registers : (r : Registration) (m : Manager) → Step m (register_driver r m).0
  unregisters : (id : String) (m : Manager) → Step m (unregister_driver id m)
  finds : (m : Manager) → Step m (find_device m)
  starts : (m : Manager) → Step m (start_demuxer_process m)
  reads : (line : String) (m : Manager) → Step m (read_line line m)
  clears : (m : Manager) → Step m (clear_ready m)
  ends : (m : Manager) → Step m (cleanup_demuxer_process m)
  cleans : (m : Manager) → Step m (cleanup m)

pub data Reach : Manager → Type 0 where
  begin : Reach new_manager
  next : {m n : Manager} → Reach m → Step m n → Reach n
