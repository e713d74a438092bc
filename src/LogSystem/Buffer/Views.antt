-- ===== src/LogSystem/Buffer/Views.antt =====
-- logSystem/logsCode/AsyncBuffer.hpp: new, reset and empty buffers.
use asyn_log_system.Prelude.{ℕ, ◌-◌, ◌≤◌, ◌≡◌, refl, true, [], arith, length-replicate, ==_iff}
use asyn_log_system.LogSystem.Config.{Config}
use asyn_log_system.LogSystem.Buffer.{Buffer, max_size, contents, init, is_empty, reset}
use asyn_log_system.LogSystem.Buffer.Contents.{IsValid}

pub init-IsValid : (c : Config) → c.buffer_size ≤ max_size → IsValid (init c)
unfolding init
init-IsValid c h = omega (arith, length-replicate {A = ℕ} c.buffer_size 0)

pub contents-init : (c : Config) → contents (init c) ≡ []
unfolding init
contents-init c = refl

pub reset-IsValid : (b : Buffer) → IsValid b → IsValid (reset b)
unfolding reset
reset-IsValid b v = omega arith

pub contents-reset : (b : Buffer) → contents (reset b) ≡ []
unfolding reset
contents-reset b = refl

-- An empty buffer holds nothing.
pub contents-is_empty : (b : Buffer) → is_empty b ≡ true → contents b ≡ []
unfolding is_empty
contents-is_empty b h =
    let e : b.write_pos - b.read_pos ≡ 0 = omega (arith, (==_iff b.write_pos b.read_pos).0 h) in
    rw e

pub write_pos-is_empty : (b : Buffer) → is_empty b ≡ true → b.write_pos ≡ b.read_pos
unfolding is_empty
write_pos-is_empty b h = (==_iff b.write_pos b.read_pos).0 h
