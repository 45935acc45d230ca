-- ===== src/Users/Permission.antt =====
-- Who may access a file of a mode.
use Prim.Native.Nat.{bit_and}
use hana_core.Prelude.{ℕ, ◌*◌, ◌/◌, ◌^◌, ◌≡◌, ◌<◌, arith, true, not, ◌==◌, if◌then◌else◌}
use hana_core.Prelude.Word.{bit_and_mask}
use hana_core.Users.{check_permission}

-- Root may do everything; for another user the bits of the owner are never looked at: the group's
-- bits decide where the high byte of the mode is the group, and else those of the others.
pub check_permission_lem :
    (mode uid gid required_bits : ℕ)
    → mode < 2 ^ 16
    → check_permission mode uid gid required_bits ≡ (
        if uid == 0
        then true
        else if gid == mode / 2 ^ 8
        then not (bit_and mode (required_bits * 2 ^ 3) == 0)
        else not (bit_and mode required_bits == 0))
unfolding check_permission
check_permission_lem mode uid gid required_bits h =
    ground (arith, bit_and_mask 16 (mode / 2 ^ 16), bit_and_mask 8 (mode / 2 ^ 8))
