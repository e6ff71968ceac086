-- ===== src/PingPong/Common.antt =====
-- 04-IPC-Synchronization/02-Multi-Processes-Signal/src/common.c, byte by byte the file
-- Mini-Project/Application/src/common.c.
use gemtek_sw_training.Prelude.{ℕ, ℤ, Bytes}
use gemtek_sw_training.Common as Common
use gemtek_sw_training.Common.Ftoa as Ftoa
use gemtek_sw_training.Speedtest.Double.{Double}

abbrev pub reverse_str : Bytes → ℕ → Bytes
reverse_str str len = Common.reverse_str str len

abbrev pub int_to_str : ℤ → ℕ → Bytes × ℕ
int_to_str x d = Common.int_to_str x d

abbrev pub ftoa : (F : Double) → F.Number → ℕ → Bytes
ftoa F n afterpoint = Ftoa.ftoa F n afterpoint
