-- ===== src/Logging.antt =====
-- src/platform/logging/: the log of the daemon. Where a system takes stdout and stderr itself,
-- `logging_init` does nothing and gives 0.
pub mod Darwin
use dimmit.Base.Int.{ℤ, pos}

abbrev pub linux_logging_init : ℤ
linux_logging_init = pos 0

abbrev pub netbsd_logging_init : ℤ
netbsd_logging_init = pos 0

abbrev pub windows_logging_init : ℤ
windows_logging_init = pos 0
