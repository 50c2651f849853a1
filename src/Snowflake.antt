-- ===== src/Snowflake.antt =====
-- `Snowflake.generate`, `_till_next_ms` and `parse` of backend/utils/snowflake.py. The lock makes a
-- call one step on the state. What the clock shows is a list of readings in milliseconds, one for
-- each call of `_current_ms`; a call that is still in `_till_next_ms` when the list ends is `waiting`.
pub mod Config
pub mod Compose
pub mod Issue
pub mod Returns
pub mod Parse
pub mod Nodes
use fbapy.Base.{
  ℕ, zero, suc, ◌+◌, Bool, true, false, not, Option, none, some, List, [], ◌∷◌, ◌==◌, if◌then◌else◌,
}
use Prim.Native.Nat.{bit_and}
use fbapy.Base.Int.{ℤ, pos, negsuc, ◌-ℤ◌, ◌+ℤ◌, ltb_ℤ, leb_ℤ, eqb_ℤ, shl, shr, int_or, int_and}
use fbapy.Base.Exec.{Error, server_error, type_error}
use Config.{
  max_worker_id, max_datacenter_id, sequence_mask, worker_id_shift, datacenter_id_shift,
  timestamp_left_shift, epoch, clock_backward_tolerance_ms,
}

pub record Snowflake : Type 0 where
  pub datacenter_id : Option ℤ
  pub worker_id : Option ℤ
  pub sequence : ℕ
  pub last_timestamp : ℤ
  pub initialized : Bool
  pub auto_allocated : Bool

abbrev pub new : Snowflake
new = record {
  datacenter_id = none;
  worker_id = none;
  sequence = 0;
  last_timestamp = negsuc 0;
  initialized = false;
  auto_allocated = false;
}

-- How a call of `generate` ends: with an identifier or an exception, the new state and the readings
-- that are left, or not yet.
pub data Outcome : Type 0 where
  generated : ℤ → Snowflake → List ℕ → Outcome
  raised : Error → Snowflake → List ℕ → Outcome
  waiting : Outcome

-- The first reading after `last`, and those that follow it.
pub till_next_ms : ℤ → List ℕ → Option (ℕ × List ℕ)
till_next_ms last [] = none
till_next_ms last (ts ∷ clock) =
    if leb_ℤ (pos ts) last then till_next_ms last clock else some (ts, clock)

-- The 64 bits, from the highest part down.
pub compose : ℕ → ℤ → ℤ → ℕ → ℤ
compose timestamp datacenter_id worker_id sequence =
    int_or
      (int_or
        (int_or (shl (pos timestamp -ℤ pos epoch) timestamp_left_shift)
          (shl datacenter_id datacenter_id_shift))
        (shl worker_id worker_id_shift))
      (pos sequence)

compose_parts : Option ℤ → Option ℤ → ℕ → Snowflake → List ℕ → Outcome
compose_parts (some datacenter_id) (some worker_id) timestamp s clock =
    generated (compose timestamp datacenter_id worker_id s.sequence) s clock
compose_parts _ _ timestamp s clock = raised type_error s clock

-- `self.last_timestamp = timestamp` and the return
finish : Snowflake → ℕ → List ℕ → Outcome
unfolding compose_parts
finish s timestamp clock =
    compose_parts s.datacenter_id s.worker_id timestamp
      (record s { last_timestamp = pos timestamp }) clock

-- The sequence of the millisecond: it goes up, starts again, or waits when it is used up.
number : Snowflake → ℕ → List ℕ → Outcome
number s timestamp clock =
    let next = bit_and (s.sequence + 1) sequence_mask in
    if eqb_ℤ (pos timestamp) s.last_timestamp
    then if next == 0
      then elim (till_next_ms s.last_timestamp clock) [
        | none ↦ waiting
        | some (later, rest) ↦ finish (record s { sequence = next }) later rest
      ]
      else finish (record s { sequence = next }) timestamp clock
    else finish (record s { sequence = 0 }) timestamp clock

-- A clock that went back is waited for within the tolerance, and refused beyond it.
pub generate_at : Snowflake → List ℕ → Outcome
generate_at s [] = waiting
generate_at s (timestamp ∷ clock) =
    if ltb_ℤ (pos timestamp) s.last_timestamp
    then if leb_ℤ (s.last_timestamp -ℤ pos timestamp) (pos clock_backward_tolerance_ms)
      then elim (till_next_ms s.last_timestamp clock) [
        | none ↦ waiting
        | some (later, rest) ↦ number s later rest
      ]
      else raised (server_error "雪花 ID 生成失败，时钟回拨") s clock
    else number s timestamp clock

unfoldable pub generate : Snowflake → List ℕ → Outcome
unfolding generate_at number finish till_next_ms compose
generate s clock =
    if not s.initialized
    then raised (server_error "雪花 ID 生成失败，雪花算法未初始化") s clock
    else generate_at s clock

-- A process that asks `n` times, in the order in which its threads get the lock. A refused call
-- issues nothing; after a call that still waits nothing more is issued.
issue_rest : Outcome → (Snowflake → List ℕ → List ℤ) → List ℤ
issue_rest (generated id s clock) more = id ∷ more s clock
issue_rest (raised e s clock) more = more s clock
issue_rest waiting more = []

unfoldable pub issue : ℕ → Snowflake → List ℕ → List ℤ
unfolding generate issue_rest
issue zero s clock = []
issue (suc n) s clock = issue_rest (generate s clock) (issue n)

pub record SnowflakeInfo : Type 0 where
  pub timestamp : ℤ
  pub datacenter_id : ℤ
  pub worker_id : ℤ
  pub sequence : ℤ

unfoldable pub parse : ℤ → SnowflakeInfo
parse snowflake_id = record {
  timestamp = shr snowflake_id timestamp_left_shift +ℤ pos epoch;
  datacenter_id = int_and (shr snowflake_id datacenter_id_shift) (pos max_datacenter_id);
  worker_id = int_and (shr snowflake_id worker_id_shift) (pos max_worker_id);
  sequence = int_and snowflake_id (pos sequence_mask);
}
