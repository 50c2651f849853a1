-- ===== src/Snowflake/Config.antt =====
-- `SnowflakeConfig` of backend/utils/snowflake.py: the layout of a 64-bit identifier.
use fbapy.Base.{ℕ, ◌+◌, ◌-◌, ◌^◌}

abbrev pub worker_id_bits : ℕ
worker_id_bits = 5

abbrev pub datacenter_id_bits : ℕ
datacenter_id_bits = 5

abbrev pub sequence_bits : ℕ
sequence_bits = 12

abbrev pub max_worker_id : ℕ
max_worker_id = 2 ^ worker_id_bits - 1

abbrev pub max_datacenter_id : ℕ
max_datacenter_id = 2 ^ datacenter_id_bits - 1

abbrev pub sequence_mask : ℕ
sequence_mask = 2 ^ sequence_bits - 1

abbrev pub worker_id_shift : ℕ
worker_id_shift = sequence_bits

abbrev pub datacenter_id_shift : ℕ
datacenter_id_shift = sequence_bits + worker_id_bits

abbrev pub timestamp_left_shift : ℕ
timestamp_left_shift = sequence_bits + worker_id_bits + datacenter_id_bits

abbrev pub epoch : ℕ
epoch = 1262275200000

abbrev pub clock_backward_tolerance_ms : ℕ
clock_backward_tolerance_ms = 10_000
