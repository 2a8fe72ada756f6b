-- ===== src/Monitor/Run.antt =====
-- exec_next() and monitor_set_key() of monitor.c, and the runs of the machine that they make.
use realboy.Prelude.{ℕ, ◌==◌, Bool, true, false, if◌then◌else◌}
use realboy.Machine.{Keys, Machine}
use realboy.Machine.Hash.{Objects}
use realboy.Machine.Valid.{MachineValidFrom}
use realboy.Cpu.Exec.{cpu_exec_next}
use realboy.Cpu.Valid.Exec.{cpu_exec_next-Valid}
use realboy.Ppu.Phase.{ppu_refresh}
use realboy.Ppu.Phase.Valid.{ppu_refresh-Valid}

unfoldable pub exec_next : Machine → Machine
exec_next m = let (m1, cycles) = cpu_exec_next m in ppu_refresh cycles m1

-- The key codes that monitor_set_key() tells apart.
pub data Key : Type 0 where
  key_enter key_down key_j key_space key_up key_k key_s key_left key_h key_d key_right key_l : Key
  key_other : Key

unfoldable pub set_key : Key → Bool → Keys → Keys
set_key key_enter released k = record k { start_released = released }
set_key key_down released k = record k { down_released = released }
set_key key_j released k = record k { down_released = released }
set_key key_space released k = record k { select_released = released }
set_key key_up released k = record k { up_released = released }
set_key key_k released k = record k { up_released = released }
set_key key_s released k = record k { b_released = released }
set_key key_left released k = record k { left_released = released }
set_key key_h released k = record k { left_released = released }
set_key key_d released k = record k { a_released = released }
set_key key_right released k = record k { right_released = released }
set_key key_l released k = record k { right_released = released }
set_key key_other released k = k

-- `value` is that of the input event: 0 for a release. `is_focus` is the backend's answer.
unfoldable pub monitor_set_key : Bool → Key → ℕ → Machine → Machine
monitor_set_key is_focus key value m =
    if is_focus then record m { keys = set_key key (value == 0) m.keys } else m

-- The loop of monitor_run() executes one instruction after another, and the thread of the input
-- sets keys in between.
pub data Step : Machine → Machine → Type 0 where
  executes : (m : Machine) → Step m (exec_next m)
  presses :
      (m : Machine) (is_focus : Bool) (key : Key) (value : ℕ)
      → Step m (monitor_set_key is_focus key value m)

pub data Reaches : Machine → Machine → Type 0 where
  here : (m : Machine) → Reaches m m
  then_step : (m n o : Machine) → Reaches m n → Step n o → Reaches m o

exec_next-Valid :
    {base : Objects} → (m : Machine) → MachineValidFrom base m → MachineValidFrom base (exec_next m)
unfolding exec_next
exec_next-Valid m v =
    ppu_refresh-Valid (cpu_exec_next m).1 (cpu_exec_next m).0 (cpu_exec_next-Valid m v)

keys-Valid :
    {base : Objects}
    → (m : Machine) (k : Keys) → MachineValidFrom base m
    → MachineValidFrom base (record m { keys = k })
keys-Valid m k v = record {
  cpu_valid = v.cpu_valid;
  ppu_valid = v.ppu_valid;
  mbc_valid = v.mbc_valid;
  io_bytes = v.io_bytes;
}

monitor_set_key-Valid :
    {base : Objects}
    → (is_focus : Bool) (key : Key) (value : ℕ) (m : Machine) → MachineValidFrom base m
    → MachineValidFrom base (monitor_set_key is_focus key value m)
unfolding monitor_set_key
monitor_set_key-Valid true key value m v = keys-Valid m _ v
monitor_set_key-Valid false key value m v = v

Step-Valid :
    {base : Objects}
    → (m n : Machine) → Step m n
    → MachineValidFrom base m
    → MachineValidFrom base n
Step-Valid _ _ (executes m) v = exec_next-Valid m v
Step-Valid _ _ (presses m is_focus key value) v = monitor_set_key-Valid is_focus key value m v

-- Whatever program the machine executes and whatever keys are pressed in between, all of this holds
-- on after any number of steps: all fields fit their C types, F has no bit below the flags, the
-- interrupt requests are five bits, a running timer has a divider, and `oam_hash` lists objects
-- only, each at most once and in no row but that of its coordinate. All objects of any set that it
-- lists at the start stay in it, and all with a coordinate of 16 or more are in it.
pub Reaches-Valid :
    (base : Objects) (m n : Machine)
    → Reaches m n
    → MachineValidFrom base m
    → MachineValidFrom base n
Reaches-Valid base _ _ (here m) v = v
Reaches-Valid base _ _ (then_step m k n r s) v = Step-Valid k n s (Reaches-Valid base m k r v)
