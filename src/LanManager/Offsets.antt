-- ===== src/LanManager/Offsets.antt =====
-- `u32::checked_sub` and `u32::checked_add`, with which src/services/lan/manager.rs and src/config.rs move
-- an address to another network.
use trimrouter.Prelude.{ℕ, ◌+◌, ◌-◌, Option, none, some, if◌then◌else◌, ltb}

abbrev pub checked_sub : ℕ → ℕ → Option ℕ
checked_sub a b = if ltb a b then none else some (a - b)

abbrev pub checked_add : ℕ → ℕ → Option ℕ
checked_add a b = if ltb (a + b) 4294967296 then some (a + b) else none
